-- ===== src/Server/Songs.antt =====
-- `does_contain_suffix`, `get_song_paths_from_dir` and `set_options` of task3/server.c. A C string is the
-- list of its bytes before the terminator.
pub mod Laws
pub mod Copy
use pc_project_2024_mtr.Prelude.{
  ℕ, zero, suc, ◌+◌, ◌-◌, ◌≡◌, ◌&&◌, Bool, true, false, List, [], ◌∷◌, ◌++◌, map, Option, none,
  some, length, get_elem?, ltb, leb, ◌==◌, if◌then◌else◌, Outcome, ok, exit, Error, drop,
}
use pc_project_2024_mtr.Prelude.Int.{ℤ, pos}
use pc_project_2024_mtr.Prelude.Text.{Bytes, same_string}

abbrev pub song_count : ℕ
song_count = 3

unfoldable pub does_contain_suffix : Bytes → Bytes → Bool
unfolding same_string
does_contain_suffix string suffix =
    leb (length suffix) (length string)
    && same_string (drop (length string - length suffix) string) suffix

-- `.mp3`, and the path of a file of the directory
abbrev pub mp3 : Bytes
mp3 = b'.' ∷ b'm' ∷ b'p' ∷ b'3' ∷ []

abbrev pub join : Bytes → Bytes → Bytes
join directory name = directory ++ (b'/' ∷ name)

-- The loop over the directory's entries; `idx` songs have been found. The entry read last is dropped
-- when enough songs are there.
unfoldable pub collect : Bytes → ℕ → List Bytes → List Bytes
unfolding does_contain_suffix
collect directory idx [] = []
collect directory idx (name ∷ entries) = elim (ltb idx song_count) [
  | true ↦ elim (does_contain_suffix name mp3) [
    | true ↦ join directory name ∷ collect directory (suc idx) entries
    | false ↦ collect directory idx entries
  ]
  | false ↦ []
]

-- `opened` is what `opendir` and `readdir` give: `none` if the directory cannot be opened.
unfoldable pub get_song_paths_from_dir : Option (List Bytes) → Bytes → Outcome (List Bytes)
unfolding collect
get_song_paths_from_dir none directory = exit Error.bad_directory
get_song_paths_from_dir (some entries) directory =
    let song_paths = collect directory 0 entries in
    if length song_paths == song_count then ok song_paths else exit Error.few_songs

pub record Options : Type 0 where
  pub port : ℤ
  pub music_directory : Bytes

-- `set_options`; `argv` has `argc` entries, and `atoi` is the C library's.
unfoldable pub set_options : (Bytes → ℤ) → List Bytes → Options
set_options atoi argv = record {
  port = elim (get_elem? argv 1) [ some s ↦ atoi s | none ↦ pos 3000 ];
  music_directory = elim (get_elem? argv 2) [
    | some s ↦ s
    | none ↦ b'.' ∷ b'/' ∷ b'm' ∷ b'e' ∷ b'd' ∷ b'i' ∷ b'a' ∷ []
  ];
}
