-- ===== src/Log/Read.antt =====
-- What task2/matrix_mul/check_answers.py reads of a log file, and what it reports of it.
pub mod Checked
use pc_project_2024_mtr.Prelude.{
  ℕ, zero, suc, ◌+◌, ◌<◌, ◌≤◌, ◌≡◌, refl, ap, ◌∙◌, sym, subst, Bool, true, false, ◌&&◌, List, [],
  ◌∷◌, ◌++◌, map, Option, some, arith, length, take, drop, ok, append_assoc, append-nil, ltb,
  length-append, Bool-cases, inl, inr,
}
use pc_project_2024_mtr.Prelude.Int.{ℤ, pos}
use pc_project_2024_mtr.Prelude.Text.{Bytes, codes}
use pc_project_2024_mtr.Matrix.{Matrix, IsValid}
use pc_project_2024_mtr.Log.{Logged, header, write_log, newline}
use pc_project_2024_mtr.Log.Pieces.{
  split_lines, split_lines-line, split_on, split_on-piece, split_on-whole, split_words,
  split_words-word, split_words_nil, Lacks, Lacks-append,
}
use pc_project_2024_mtr.Log.Checker.{
  Table, starts_with, read_ints, read_rows, row_count, read_header, read_matrix, check,
  check_answers, ◌>>=◌,
}
use pc_project_2024_mtr.Log.Printed.{
  Format, IsNumeral, numeral-Lacks_low, numeral-Lacks_high, table, length-rows_from, row_text,
  matrix_text, matrix_print_lem, split_lines-matrix,
}

take-map :
    (rows : Table) (f : List ℤ → Bytes) (rest : List Bytes) (n : ℕ)
    → length rows ≡ n
    → take n (map f rows ++ rest) ≡ map f rows
take-map [] f rest zero e = refl
take-map [] f rest (suc n) e = absurd (omega arith)
take-map (row ∷ rows) f rest zero e = absurd (omega arith)
take-map (row ∷ rows) f rest (suc n) e = ap (λ l. f row ∷ l) (take-map rows f rest n (omega arith))

drop-map :
    (rows : Table) (f : List ℤ → Bytes) (rest : List Bytes) (n : ℕ)
    → length rows ≡ n
    → drop n (map f rows ++ rest) ≡ rest
drop-map [] f rest zero e = refl
drop-map [] f rest (suc n) e = absurd (omega arith)
drop-map (row ∷ rows) f rest zero e = absurd (omega arith)
drop-map (row ∷ rows) f rest (suc n) e = drop-map rows f rest n (omega arith)

module _ (format : Format) where
  open format use {decimal, int, numeral, some_digit, read_back, read_spaced}

  split_words-row : (row : List ℤ) → split_words (row_text format row) ≡ map decimal row
  split_words-row [] = split_words_nil
  split_words-row (v ∷ row) =
      split_words-word (decimal v) (row_text format row) (some_digit v)
        (numeral-Lacks_low b' ' (decimal v) (omega arith) (numeral v))
      ∙ ap (λ l. decimal v ∷ l) (split_words-row row)

  read_ints-map : (row : List ℤ) → read_ints int (map decimal row) ≡ some row
  unfolding read_ints
  read_ints-map [] = refl
  read_ints-map (v ∷ row) = rw (read_back v, read_ints-map row)

  read_rows-map : (rows : Table) → read_rows int (map (row_text format) rows) ≡ some rows
  unfolding read_rows
  read_rows-map [] = refl
  read_rows-map (row ∷ rows) = rw (split_words-row row, read_ints-map row, read_rows-map rows)

  -- The sizes, without what stands around them.
  sizes : Matrix → Bytes
  sizes m = decimal (pos m.rows) ++ (b',' ∷ b' ' ∷ decimal (pos m.cols))

  sizes-Lacks : (m : Matrix) (b : ℕ) → 57 < b → Lacks b (sizes m)
  unfolding sizes
  sizes-Lacks m b h =
      Lacks-append b (decimal (pos m.rows)) _ (numeral-Lacks_high b _ h (numeral (pos m.rows)))
        (omega arith, (omega arith, numeral-Lacks_high b _ h (numeral (pos m.cols))))

  header-sizes :
      (m : Matrix) → header decimal m ≡ codes "Matrix" ++ (b'<' ∷ (sizes m ++ (b'>' ∷ [])))
  unfolding sizes
  header-sizes m =
      ap (λ l. codes "Matrix" ++ (b'<' ∷ l))
        (sym (append_assoc (decimal (pos m.rows)) (b',' ∷ b' ' ∷ decimal (pos m.cols)) (b'>' ∷ [])))

  read_sizes :
      (m : Matrix) → read_ints int (split_on b',' (sizes m)) ≡ some (pos m.rows ∷ pos m.cols ∷ [])
  unfolding sizes read_ints
  read_sizes m = rw (
    split_on-piece b',' (decimal (pos m.rows)) (b' ' ∷ decimal (pos m.cols))
        (numeral-Lacks_low b',' _ (omega arith) (numeral (pos m.rows))),
    split_on-whole b',' (b' ' ∷ decimal (pos m.cols))
        (omega arith, numeral-Lacks_low b',' _ (omega arith) (numeral (pos m.cols))),
    read_back (pos m.rows),
    read_spaced (pos m.cols),
  )

  read_header_lem : (m : Matrix) → read_header int (header decimal m) ≡ some m.rows
  unfolding read_header row_count
  read_header_lem m = rw (
    header-sizes m,
    split_on-piece b'<' (codes "Matrix") (sizes m ++ (b'>' ∷ [])) (omega arith),
    split_on-whole b'<' (sizes m ++ (b'>' ∷ []))
        (Lacks-append b'<' (sizes m) _ (sizes-Lacks m b'<' (omega arith)) (omega arith)),
    split_on-piece b'>' (sizes m) [] (sizes-Lacks m b'>' (omega arith)),
    read_sizes m,
  )

  -- A matrix that was printed is read back, and what stands behind it is left.
  pub read_matrix_lem :
      (m : Matrix) (rest : List Bytes)
      → read_matrix int (header decimal m ∷ (map (row_text format) (table m) ++ rest))
        ≡ some (table m, rest)
  unfolding read_matrix
  read_matrix_lem m rest =
      let e = length-rows_from m m.rows 0 in
      rw (
        read_header_lem m,
        take-map (table m) (row_text format) rest m.rows e,
        drop-map (table m) (row_text format) rest m.rows e,
        read_rows-map (table m),
      )
