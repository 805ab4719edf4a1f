-- ===== src/Server/Songs/Laws.antt =====
-- Which files `get_song_paths_from_dir` of task3/server.c takes.
use pc_project_2024_mtr.Prelude.{
  ap, ◌∙◌, sym, ℕ, zero, suc, ◌+◌, ◌-◌, ◌≤◌, ◌≡◌, ◌↔◌, inl, inr, refl, ◌&&◌, Bool, true, false,
  List, [], ◌∷◌, ◌++◌, map, some, length, length-append, ltb, leb, if◌then◌else◌, ok, exit, Error,
  arith, Bool-cases, take, drop, take-append-drop, le→leb, leb→le,
}
use pc_project_2024_mtr.Prelude.Text.{Bytes, same_string, same_string-eq, same_string_refl}
use pc_project_2024_mtr.Server.Songs.{
  song_count, does_contain_suffix, mp3, join, collect, get_song_paths_from_dir,
}

drop-append : (p s : Bytes) → drop (length p) (p ++ s) ≡ s
drop-append [] s = refl
drop-append (x ∷ p) s = drop-append p s

&&-right : (a b : Bool) → (a && b) ≡ true → b ≡ true
&&-right a b e = ground arith

-- `does_contain_suffix` tells exactly whether the string ends in the suffix.
pub does_contain_suffix_iff :
    (string suffix : Bytes)
    → (does_contain_suffix string suffix ≡ true) ↔ ((front : Bytes) × (string ≡ front ++ suffix))
unfolding does_contain_suffix
does_contain_suffix_iff string suffix = (
  λ h. (
    take k string,
    sym (take-append-drop k string)
        ∙ ap (λ l. take k string ++ l) (same_string-eq (drop k string) suffix (&&-right _ _ h)),
  ),
  λ w. has_suffix w.0 w.1,
)
  where
    k : ℕ
    k = length string - length suffix

    has_suffix :
        (front : Bytes)
        → string ≡ front ++ suffix
        → (leb (length suffix) (length string) && same_string (drop k string) suffix) ≡ true
    has_suffix front e =
        let at_end : length (front ++ suffix) - length suffix ≡ length front =
          omega (arith, length-append front suffix) in
        rw (
          e,
          at_end,
          drop-append,
          same_string_refl,
          le→leb (length suffix) (length (front ++ suffix))
              (omega (arith, length-append front suffix)),
        )

abbrev pub EndsIn : Bytes → Bytes → Type 0
EndsIn suffix name = (front : Bytes) × (name ≡ front ++ suffix)

-- The names that end in `.mp3`, in order.
pub data AreSongs : List Bytes → List Bytes → Type 0 where
  no_entry : AreSongs [] []
  matching :
      {entries names : List Bytes} (name : Bytes)
      → EndsIn mp3 name
      → AreSongs entries names
      → AreSongs (name ∷ entries) (name ∷ names)
  passed_over :
      {entries names : List Bytes} (name : Bytes)
      → ¬ EndsIn mp3 name
      → AreSongs entries names
      → AreSongs (name ∷ entries) names

songs : List Bytes → List Bytes
songs [] = []
songs (name ∷ entries) =
    if does_contain_suffix name mp3 then name ∷ songs entries else songs entries

songs-AreSongs : (entries : List Bytes) → AreSongs entries (songs entries)
unfolding songs
songs-AreSongs [] = no_entry
songs-AreSongs (name ∷ entries) = elim (Bool-cases (does_contain_suffix name mp3)) [
  | inl yes_song ↦
      rw yes_song
        (matching name ((does_contain_suffix_iff name mp3).0 yes_song) (songs-AreSongs entries))
  | inr no_song ↦ rw no_song (
      passed_over name (λ ends. cc (no_song, (does_contain_suffix_iff name mp3).1 ends))
        (songs-AreSongs entries))
]

collect_lem :
    (directory : Bytes) (idx k : ℕ) (entries : List Bytes)
    → idx + k ≡ song_count
    → collect directory idx entries ≡ map (join directory) (take k (songs entries))
unfolding collect songs
collect_lem directory idx zero [] e = refl
collect_lem directory idx (suc k) [] e = refl
collect_lem directory idx zero (name ∷ entries) e =
    let enough : ltb idx song_count ≡ false = ground arith in rw (enough, collect)
collect_lem directory idx (suc k) (name ∷ entries) e =
    let fewer : ltb idx song_count ≡ true = ground arith in
    elim (Bool-cases (does_contain_suffix name mp3)) [
      | inl song ↦
          rw (fewer, song, collect)
            (ap (λ l. join directory name ∷ l)
              (collect_lem directory (suc idx) k entries (omega arith)))
      | inr other ↦ rw (fewer, other, collect) (collect_lem directory idx (suc k) entries e)
    ]

length-songs :
    (directory : Bytes) (k : ℕ) (names : List Bytes)
    → k ≤ length names
    → length (map (join directory) (take k names)) ≡ k
length-songs directory zero names h = refl
length-songs directory (suc k) [] h = absurd (omega arith)
length-songs directory (suc k) (x ∷ names) h = ap suc (length-songs directory k names (omega arith))

length-songs-le :
    (directory : Bytes) (k : ℕ) (names : List Bytes)
    → length (map (join directory) (take k names)) ≤ length names
length-songs-le directory zero names = omega arith
length-songs-le directory (suc k) [] = omega arith
length-songs-le directory (suc k) (x ∷ names) = omega (arith, length-songs-le directory k names)

paths_lem :
    (entries : List Bytes) (directory : Bytes)
    → get_song_paths_from_dir (some entries) directory ≡ (
        if leb song_count (length (songs entries))
        then ok (map (join directory) (take song_count (songs entries)))
        else exit Error.few_songs)
unfolding get_song_paths_from_dir
paths_lem entries directory =
    rw (collect_lem directory 0 song_count entries refl)
      (elim (Bool-cases (leb song_count (length (songs entries)))) [
        | inl many ↦ rw (many, length-songs directory song_count (songs entries) (leb→le _ _ many))
        | inr few ↦ ground (arith, few, length-songs-le directory song_count (songs entries))
      ])

-- If the directory has at least three names that end in `.mp3`, the paths of the first three are
-- returned, in order; if it has fewer the program exits.
pub get_song_paths_lem :
    (entries : List Bytes) (directory : Bytes)
    → (names : List Bytes) × AreSongs entries names
      × (get_song_paths_from_dir (some entries) directory ≡ (
          if leb song_count (length names)
          then ok (map (join directory) (take song_count names))
          else exit Error.few_songs))
get_song_paths_lem entries directory =
    (songs entries, songs-AreSongs entries, paths_lem entries directory)
