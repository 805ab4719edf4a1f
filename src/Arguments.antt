-- ===== src/Arguments.antt =====
-- task2/matrix_mul/options.h and options.c: the options of the two multiplication programs.
use pc_project_2024_mtr.Prelude.{
  not_exited, ℕ, ◌≤◌, ◌≡◌, ◌||◌, Bool, false, List, [], ◌∷◌, none, some, length, get_elem?,
  if◌then◌else◌, Outcome, ok, exit, Error, arith, subst,
}
use pc_project_2024_mtr.Prelude.Int.{ℤ, pos, leb_ℤ, neb_ℤ, pos_part}

-- `struct Options`
pub record Options : Type 0 where
  pub matrix_order : ℤ
  pub operations : ℤ
  pub log_products : Bool

-- `(argc > i) ? atoi(argv[i]) : otherwise`, for an `argv` of `argc` entries
abbrev pub number_at : (List ℕ → ℤ) → List (List ℕ) → ℕ → ℤ → ℤ
number_at atoi argv i otherwise = elim (get_elem? argv i) [ some s ↦ atoi s | none ↦ otherwise ]

-- `OPTIONS_set`; `atoi` is the C library's.
unfoldable pub options_set : (List ℕ → ℤ) → List (List ℕ) → Outcome Options
options_set atoi argv =
    let matrix_order = number_at atoi argv 1 (pos 0) in
    let operations = number_at atoi argv 2 (pos 1) in
    let log_products = neb_ℤ (number_at atoi argv 3 (pos 0)) (pos 0) in
    if leb_ℤ matrix_order (pos 0) || leb_ℤ operations (pos 0)
    then exit Error.bad_arguments
    else ok (record {
      matrix_order = matrix_order;
      operations = operations;
      log_products = log_products;
    })

positive :
    (a b : ℤ) → (leb_ℤ a (pos 0) || leb_ℤ b (pos 0)) ≡ false → (1 ≤ pos_part a) × (1 ≤ pos_part b)
positive a b h = ground arith

accepted :
    (a b : ℤ) (l : Bool) (o : Options)
    → (if leb_ℤ a (pos 0) || leb_ℤ b (pos 0)
        then exit Error.bad_arguments
        else ok (record { matrix_order = a; operations = b; log_products = l }))
      ≡ ok o
    → (1 ≤ pos_part o.matrix_order) × (1 ≤ pos_part o.operations)
accepted a b l o e =
    let (good, made) = not_exited Error.bad_arguments (leb_ℤ a (pos 0) || leb_ℤ b (pos 0)) _ o e in
    subst (λ r. (1 ≤ pos_part r.matrix_order) × (1 ≤ pos_part r.operations)) made
      (positive a b good)

-- Options that `OPTIONS_set` accepts come from a command line with a first argument, and ask for at
-- least one row and one operation.
pub options_set-ok :
    (atoi : List ℕ → ℤ) (argv : List (List ℕ)) (o : Options)
    → options_set atoi argv ≡ ok o
    → (2 ≤ length argv) × (1 ≤ pos_part o.matrix_order) × (1 ≤ pos_part o.operations)
unfolding options_set
options_set-ok atoi [] o e = cc
options_set-ok atoi (program ∷ []) o e = cc
options_set-ok atoi (program ∷ first ∷ argv) o e =
    let (order, operations) =
      accepted (atoi first) (number_at atoi (program ∷ first ∷ argv) 2 (pos 1)) _ o e in
    (omega arith, order, operations)
