-- ===== src/Server/Songs/Copy.antt =====
-- How `get_song_paths_from_dir` of task3/server.c copies a path into memory that it has allocated for it.
use pc_project_2024_mtr.Prelude.{
  ℕ, zero, suc, ◌+◌, ◌≡◌, refl, ap, ◌∙◌, sym, Bool, List, [], ◌∷◌, ◌++◌, map, append_assoc,
  append-nil, Option, none, some, length, length-append, length-replicate, ltb, set, replicate,
  if◌then◌else◌, Outcome, ok, fault, true, false, ◌>>=◌, arith, Bool-cases, inl, inr,
}
use mathlib.Core.List.{map-append}
use pc_project_2024_mtr.Prelude.Text.{Bytes}
use pc_project_2024_mtr.Server.Songs.{join}

-- The bytes of a block of memory; one that was never written is `none`.
abbrev pub Block : Type 0
Block = List (Option ℕ)

-- The bytes are written from index `i` on. A write behind the block is undefined behaviour.
unfoldable pub write : Block → ℕ → Bytes → Outcome Block
write block i [] = ok block
write block i (byte ∷ bytes) =
    let rest = write (set block i (some byte)) (suc i) bytes in
    if ltb i (length block) then rest else fault

-- `strcpy(block + i, string)`, which copies the terminator too.
unfoldable pub strcpy : Block → ℕ → Bytes → Outcome Block
unfolding write
strcpy block i string = write block i (string ++ (0 ∷ []))

-- The path of a file: `served` tells whether `malloc` gets the memory. The result is not looked at, and a
-- null pointer is written through.
unfoldable pub copy_path : Bool → Bytes → Bytes → Outcome Block
unfolding strcpy
copy_path served directory name = do
  let directory_name_size = length directory
  let file_name_size = length name
  path ←
      (if served then ok (replicate (directory_name_size + 1 + file_name_size + 1) none) else fault)
  path ← strcpy path 0 directory
  path ← strcpy path directory_name_size (b'/' ∷ [])
  path ← strcpy path (directory_name_size + 1) name
  write path (directory_name_size + 1 + file_name_size) (0 ∷ [])

write-cons :
    (x : Option ℕ) (block : Block) (i : ℕ) (bytes : Bytes)
    → write (x ∷ block) (suc i) bytes ≡ (write block i bytes >>= λ b. ok (x ∷ b))
unfolding write
write-cons x block i [] = refl
write-cons x block i (byte ∷ bytes) = elim (Bool-cases (ltb i (length block))) [
  | inl h ↦
      let h' : ltb (suc i) (suc (length block)) ≡ true = ground arith in
      rw (h, h') (write-cons x (set block i (some byte)) (suc i) bytes)
  | inr h ↦ let h' : ltb (suc i) (suc (length block)) ≡ false = ground arith in rw (h, h') refl
]

-- Bytes that fall on a part of the block replace it.
write-append :
    (front middle back : Block) (bytes : Bytes)
    → length middle ≡ length bytes
    → write (front ++ (middle ++ back)) (length front) bytes
      ≡ ok (front ++ (map some bytes ++ back))
unfolding write
write-append [] [] back [] e = refl
write-append [] (x ∷ middle) back [] e = absurd (omega arith)
write-append [] [] back (byte ∷ bytes) e = absurd (omega arith)
write-append [] (x ∷ middle) back (byte ∷ bytes) e =
    let inside : ltb 0 (suc (length (middle ++ back))) ≡ true = ground arith in
    rw
      (
        inside,
        write-cons (some byte) (middle ++ back) 0 bytes,
        write-append [] middle back bytes (omega arith),
      )
      refl
write-append (x ∷ front) middle back bytes e =
    rw
      (
        write-cons x (front ++ (middle ++ back)) (length front) bytes,
        write-append front middle back bytes e,
      )
      refl

-- A block of `n + m` bytes that were never written.
fresh-append :
    (n m : ℕ) → replicate (n + m) none ≡ replicate n none ++ replicate {A = Option ℕ} m none
fresh-append zero m = ap (λ k. replicate {A = Option ℕ} k none) (omega arith)
fresh-append (suc n) m =
    let e : suc n + m ≡ suc (n + m) = omega arith in
    ap (λ k. replicate {A = Option ℕ} k none) e ∙ ap (λ l. none ∷ l) (fresh-append n m)

length_mapped : (bytes : Bytes) → length (map {B = Option ℕ} some bytes) ≡ length bytes
length_mapped [] = refl
length_mapped (byte ∷ bytes) = ap suc (length_mapped bytes)

write_at :
    (front middle back : Block) (i : ℕ) (bytes : Bytes)
    → i ≡ length front
    → length middle ≡ length bytes
    → write (front ++ (middle ++ back)) i bytes ≡ ok (front ++ (map some bytes ++ back))
write_at front middle back i bytes e h = rw e (write-append front middle back bytes h)

module _ (directory name : Bytes) where
  abbrev unwritten : ℕ → Block
  unwritten n = replicate n none

  abbrev front : Block
  front = map some directory

  abbrev slashed : Block
  slashed = front ++ (some b'/' ∷ [])

  allocated :
      unwritten (length directory + 1 + length name + 1)
      ≡ unwritten (suc (length directory)) ++ unwritten (suc (length name))
  allocated =
      let e : length directory + 1 + length name + 1 ≡ suc (length directory) + suc (length name) =
        omega arith in
      ap unwritten e ∙ fresh-append (suc (length directory)) (suc (length name))

  copy_directory :
      write
        (unwritten (suc (length directory)) ++ unwritten (suc (length name)))
        0
        (directory ++ (0 ∷ []))
      ≡ ok (front ++ ((some 0 ∷ none ∷ []) ++ unwritten (length name)))
  copy_directory =
      write-append [] (unwritten (suc (length directory))) (unwritten (suc (length name)))
        (directory ++ (0 ∷ []))
        (omega (
          arith,
          length-append directory (0 ∷ []),
          length-replicate {A = Option ℕ} (length directory) none,
        ))
      ∙ ap ok (
          ap (λ l. l ++ unwritten (suc (length name))) (map-append some directory (0 ∷ []))
          ∙ append_assoc front (some 0 ∷ []) (unwritten (suc (length name))))

  copy_slash :
      write
        (front ++ ((some 0 ∷ none ∷ []) ++ unwritten (length name)))
        (length directory)
        (b'/' ∷ 0 ∷ [])
      ≡ ok (slashed ++ ((some 0 ∷ unwritten (length name)) ++ []))
  copy_slash =
      write_at front (some 0 ∷ none ∷ []) (unwritten (length name)) (length directory)
        (b'/' ∷ 0 ∷ []) (sym (length_mapped directory)) refl
      ∙ ap ok (
          sym (append_assoc front (some b'/' ∷ []) (some 0 ∷ unwritten (length name)))
          ∙ ap (λ l. slashed ++ l) (sym (append-nil (some 0 ∷ unwritten (length name)))))

  copy_name :
      write
        (slashed ++ ((some 0 ∷ unwritten (length name)) ++ []))
        (length directory + 1)
        (name ++ (0 ∷ []))
      ≡ ok (map some (join directory name) ++ ((some 0 ∷ []) ++ []))
  copy_name =
      write_at slashed (some 0 ∷ unwritten (length name)) [] _ (name ++ (0 ∷ []))
        (omega (arith, length-append front (some b'/' ∷ []), length_mapped directory))
        (omega
          (arith, length-append name (0 ∷ []), length-replicate {A = Option ℕ} (length name) none))
      ∙ ap ok (
          rw
            (
              append-nil (map {B = Option ℕ} some (name ++ (0 ∷ []))),
              map-append {B = Option ℕ} some name (0 ∷ []),
              map-append {B = Option ℕ} some directory (b'/' ∷ name),
              append_assoc front (some b'/' ∷ []) (map some name ++ (some 0 ∷ [])),
              append_assoc front (some b'/' ∷ map some name) (some 0 ∷ []),
            )
            refl)

  close_path :
      write
        (map some (join directory name) ++ ((some 0 ∷ []) ++ []))
        (length directory + 1 + length name)
        (0 ∷ [])
      ≡ ok (map some (join directory name ++ (0 ∷ [])))
  close_path =
      write_at (map some (join directory name)) (some 0 ∷ []) [] _ (0 ∷ [])
        (omega (arith, length_mapped (join directory name), length-append directory (b'/' ∷ name)))
        refl
      ∙ ap ok (sym (map-append some (join directory name) (0 ∷ [])))

-- Where `malloc` gets the memory, each write of the path of a file stays in it, and in the end all of it is
-- written: it holds the directory, a slash, the name and a terminator. Where `malloc` refuses, the path is
-- written through a null pointer.
pub copy_path_lem :
    (served : Bool) (directory name : Bytes)
    → copy_path served directory name
      ≡ (if served then ok (map some (join directory name ++ (0 ∷ []))) else fault)
unfolding copy_path strcpy
copy_path_lem false directory name = refl
copy_path_lem true directory name =
    rw
      (
        allocated directory name,
        copy_directory directory name,
        copy_slash directory name,
        copy_name directory name,
        close_path directory name,
      )
      refl
