-- ===== src/Tests/Logs.antt =====
-- The theorems on the log files, the beginning of `main` and the sockets, at concrete inputs.
use pc_project_2024_mtr.Prelude.{
  ℕ, zero, suc, ◌≡◌, ◌≢◌, sym, refl, ◌∙◌, Bool, true, List, [], ◌∷◌, Option, none, some, arith,
  length, replicate, length-replicate, ok, ==_iff, ◌==◌, if◌then◌else◌,
}
use pc_project_2024_mtr.Prelude.Int.{ℤ, pos, negsuc}
use pc_project_2024_mtr.Prelude.Text.{Bytes, codes}
use pc_project_2024_mtr.Matrix.{Matrix}
use pc_project_2024_mtr.Matrix.Creation.{begin_main, begin_main-ne-ok}
use pc_project_2024_mtr.Log.{Logged, write_log, log_products}
use pc_project_2024_mtr.Log.Checker.{Table, check_answers}
use pc_project_2024_mtr.Log.Printed.{Format, IsNumeral, table, length-rows_from}
use pc_project_2024_mtr.Log.Read.Checked.{all_match, check_answers_lem}
use pc_project_2024_mtr.Log.Programs.{IsProduct, operations_from, parallel_log-checks}
use pc_project_2024_mtr.Tests.Runs.{
  small_allocator, row_matrix, col_matrix, raw_matrix, operands, run,
}
use pc_project_2024_mtr.Tests.Witnesses.{small_fit}

-- Numbers written in ones: `-` or `0`, and as many `1`s.
abbrev ones : ℤ → Bytes
ones (pos n) = b'0' ∷ replicate n b'1'
ones (negsuc n) = b'-' ∷ replicate n b'1'

abbrev read_ones : Bytes → Option ℤ
read_ones [] = none
read_ones (c ∷ text) =
    if c == b' '
    then read_ones text
    else if c == b'0'
    then some (pos (length text))
    else some (negsuc (length text))

ones-IsNumeral : (n : ℕ) → IsNumeral (replicate n b'1')
ones-IsNumeral zero = tt
ones-IsNumeral (suc n) = (omega arith, omega arith, ones-IsNumeral n)

written : (v : ℤ) → IsNumeral (ones v)
written (pos n) = (omega arith, omega arith, ones-IsNumeral n)
written (negsuc n) = (omega arith, omega arith, ones-IsNumeral n)

not_empty : (v : ℤ) → ones v ≢ []
not_empty (pos n) e = cc
not_empty (negsuc n) e = cc

reads_back : (v : ℤ) → read_ones (ones v) ≡ some v
reads_back (pos n) = rw (length-replicate {A = ℕ} n b'1')
reads_back (negsuc n) = rw (length-replicate {A = ℕ} n b'1')

abbrev in_ones : Format
in_ones = record {
  decimal = ones;
  int = read_ones;
  numeral = written;
  some_digit = not_empty;
  read_back = reads_back;
  read_spaced = reads_back;
}

-- A test that looks at the number of rows only.
abbrev same_height : Table → Table → Table → Bool
same_height a b p = length p == length a

right_height : (a b p : Matrix) → IsProduct a b p → same_height (table a) (table b) (table p) ≡ true
right_height a b p correct =
    (==_iff _ _).1
      (length-rows_from p p.rows 0 ∙ sym correct.fits.same_rows ∙ sym (length-rows_from a a.rows 0))

parallel_log-checks_example :
    (file : Bytes) × (write_log ones 0
        (operations_from operands.operand_as operands.operand_bs run.last.products 0 1)
      ≡ ok file)
    × (log_products ones
          (operations_from operands.operand_as operands.operand_bs (λ _. raw_matrix) 0 1)
        ≡ ok file)
    × (check_answers read_ones same_height file ≡ some true)
unfolding run
parallel_log-checks_example =
    parallel_log-checks in_ones same_height right_height small_allocator operands 1 1
      (λ _. raw_matrix) (λ o h. small_fit) run.last run.reach (omega arith)
      (refl, λ i h. ground arith)

abbrev logged : List Logged
logged = record { operand_a = row_matrix; operand_b = col_matrix; product = raw_matrix } ∷ []

check_answers_lem_example :
    (file : Bytes) × (write_log ones 0 logged ≡ ok file)
    × (check_answers read_ones same_height file ≡ some (all_match same_height logged))
check_answers_lem_example = check_answers_lem in_ones same_height logged (refl, refl, refl, tt)

begin_main-ne-ok_example :
    begin_main (λ _. true) (λ text. pos (length text)) (codes "x" ∷ codes "2" ∷ [])
    ≢ ok ([], [], [])
begin_main-ne-ok_example =
    begin_main-ne-ok (λ _. true) (λ text. pos (length text)) (codes "x" ∷ codes "2" ∷ [])
      ([], [], [])
