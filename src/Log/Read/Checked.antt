-- ===== src/Log/Read/Checked.antt =====
-- The log of task2/matrix_mul/sequential.c and parallel.c, as check_answers.py goes through it.
use pc_project_2024_mtr.Prelude.{
  ℕ, zero, suc, ◌<◌, ◌≡◌, refl, ap, ◌∙◌, sym, Bool, true, ◌&&◌, List, [], ◌∷◌, ◌++◌, map, some,
  arith, length, ok, append_assoc, length-append, Bool-cases, inl, inr,
}
use pc_project_2024_mtr.Prelude.Int.{pos}
use pc_project_2024_mtr.Prelude.Text.{Bytes, codes}
use pc_project_2024_mtr.Matrix.{Matrix, IsValid}
use pc_project_2024_mtr.Log.{Logged, header, write_log, newline}
use pc_project_2024_mtr.Log.Pieces.{
  split_lines, split_lines_nil, split_lines-line, Lacks, Lacks-append,
}
use pc_project_2024_mtr.Log.Checker.{Table, starts_with, check, check_answers}
use pc_project_2024_mtr.Log.Printed.{
  Format, numeral-Lacks_low, table, row_text, matrix_text, matrix_print_lem, split_lines-matrix,
}
use pc_project_2024_mtr.Log.Read.{read_matrix_lem}

-- All matrices have a cell for each row and column.
abbrev pub AreValid : List Logged → Type 0
AreValid [] = Unit
AreValid (o ∷ os) = IsValid o.operand_a × IsValid o.operand_b × IsValid o.product × AreValid os

-- Every logged product passes the test.
abbrev pub all_match : (Table → Table → Table → Bool) → List Logged → Bool
all_match matches [] = true
all_match matches (o ∷ os) =
    matches (table o.operand_a) (table o.operand_b) (table o.product) && all_match matches os

module _ (format : Format) where
  open format use {decimal, int, numeral}

  abbrev log_text : ℕ → List Logged → Bytes
  log_text i [] = []
  log_text i (o ∷ os) =
      codes "Operation "
      ++ (decimal (pos i)
          ++ (b':'
              ∷ newline
              ∷ (matrix_text format o.operand_a
                  ++ (matrix_text format o.operand_b
                      ++ (matrix_text format o.product ++ log_text (suc i) os)))))

  abbrev matrix_lines : Matrix → List Bytes → List Bytes
  matrix_lines m rest = header decimal m ∷ (map (row_text format) (table m) ++ rest)

  abbrev log_lines : ℕ → List Logged → List Bytes
  log_lines i [] = [] ∷ []
  log_lines i (o ∷ os) =
      (codes "Operation " ++ (decimal (pos i) ++ (b':' ∷ [])))
      ∷ matrix_lines o.operand_a
          (matrix_lines o.operand_b (matrix_lines o.product (log_lines (suc i) os)))

  write_log_lem :
      (i : ℕ) (os : List Logged) → AreValid os → write_log decimal i os ≡ ok (log_text i os)
  unfolding write_log
  write_log_lem i [] valid = refl
  write_log_lem i (o ∷ os) (a, b, p, valid) = rw (
    matrix_print_lem format o.operand_a a,
    matrix_print_lem format o.operand_b b,
    matrix_print_lem format o.product p,
    write_log_lem (suc i) os valid,
  )

  title-Lacks : (i : ℕ) → Lacks newline (codes "Operation " ++ (decimal (pos i) ++ (b':' ∷ [])))
  title-Lacks i = Lacks-append newline (codes "Operation ") _ (omega arith) (
      Lacks-append newline (decimal (pos i)) _
        (numeral-Lacks_low newline _ (omega arith) (numeral (pos i))) (omega arith))

  -- The lines of a printed matrix, before the lines of what follows.
  lines-matrix :
      (m : Matrix) (text : Bytes) (more : List Bytes)
      → split_lines (matrix_text format m ++ text) ++ more
        ≡ matrix_lines m (split_lines text ++ more)
  lines-matrix m text more = rw (split_lines-matrix format m text) (
      ap (λ l. header decimal m ∷ l)
        (append_assoc (map (row_text format) (table m)) (split_lines text) more))

  lines-title :
      (i : ℕ) (text : Bytes)
      → split_lines (codes "Operation " ++ (decimal (pos i) ++ (b':' ∷ newline ∷ text)))
        ≡ (codes "Operation " ++ (decimal (pos i) ++ (b':' ∷ []))) ∷ split_lines text
  lines-title i text =
      ap (λ l. split_lines (codes "Operation " ++ l))
        (sym (append_assoc (decimal (pos i)) (b':' ∷ []) (newline ∷ text)))
      ∙ split_lines-line (codes "Operation " ++ (decimal (pos i) ++ (b':' ∷ []))) text
          (title-Lacks i)

  lines-log : (i : ℕ) (os : List Logged) → split_lines (log_text i os) ++ ([] ∷ []) ≡ log_lines i os
  lines-log i [] = ap (λ l. l ++ ([] ∷ [])) split_lines_nil
  lines-log i (o ∷ os) =
      let rest = log_text (suc i) os in
      let p_text = matrix_text format o.product ++ rest in
      let b_text = matrix_text format o.operand_b ++ p_text in
      let title = codes "Operation " ++ (decimal (pos i) ++ (b':' ∷ [])) in
      ap (λ l. l ++ ([] ∷ [])) (lines-title i (matrix_text format o.operand_a ++ b_text))
      ∙ ap (λ l. title ∷ l)
          (lines-matrix o.operand_a b_text ([] ∷ [])
            ∙ ap (matrix_lines o.operand_a) (
                lines-matrix o.operand_b p_text ([] ∷ [])
                ∙ ap (matrix_lines o.operand_b) (
                    lines-matrix o.product rest ([] ∷ [])
                    ∙ ap (matrix_lines o.product) (lines-log (suc i) os))))

  check-log :
      (matches : Table → Table → Table → Bool) (fuel i : ℕ) (os : List Logged)
      → length os < fuel
      → check int matches fuel (log_lines i os) ≡ some (all_match matches os)
  unfolding check starts_with
  check-log matches zero i os h = absurd (omega arith)
  check-log matches (suc fuel) i [] h = refl
  check-log matches (suc fuel) i (o ∷ os) h =
      rw
        (
          read_matrix_lem format o.operand_a
              (matrix_lines o.operand_b (matrix_lines o.product (log_lines (suc i) os))),
          read_matrix_lem format o.operand_b (matrix_lines o.product (log_lines (suc i) os)),
          read_matrix_lem format o.product (log_lines (suc i) os),
        )
        (elim (Bool-cases (matches (table o.operand_a) (table o.operand_b) (table o.product))) [
          | inl e ↦ rw e (check-log matches fuel (suc i) os (omega arith))
          | inr e ↦ rw e
        ])

  length-matrix_lines :
      (m : Matrix) (rest : List Bytes) → length rest < length (matrix_lines m rest)
  length-matrix_lines m rest = omega (arith, length-append (map (row_text format) (table m)) rest)

  length-log_lines : (i : ℕ) (os : List Logged) → length os < length (log_lines i os)
  length-log_lines i [] = omega arith
  length-log_lines i (o ∷ os) =
      let p = matrix_lines o.product (log_lines (suc i) os) in
      let b = matrix_lines o.operand_b p in
      omega (
        arith,
        length-log_lines (suc i) os,
        length-matrix_lines o.product (log_lines (suc i) os),
        length-matrix_lines o.operand_b p,
        length-matrix_lines o.operand_a b,
      )

  -- The log of operations whose matrices have a cell for each row and column is written, and
  -- check_answers.py reads it to its end: it reports success exactly if every logged product passes its test.
  pub check_answers_lem :
      (matches : Table → Table → Table → Bool) (os : List Logged)
      → AreValid os
      → (file : Bytes) × (write_log decimal 0 os ≡ ok file)
        × (check_answers int matches file ≡ some (all_match matches os))
  unfolding check_answers
  check_answers_lem matches os valid = (
    log_text 0 os,
    write_log_lem 0 os valid,
    rw (lines-log 0 os) (check-log matches _ 0 os (length-log_lines 0 os)),
  )
