-- ===== src/Operand/Bounds.antt =====
-- How large the entries of `init_operand` and the sums made of them are.
use pc_project_2024_mtr.Prelude.{
  ℕ, zero, suc, ◌+◌, ◌*◌, ◌%◌, ◌/◌, ◌≤◌, ◌<◌, ◌≡◌, refl, ◌∙◌, List, [], ◌∷◌, some, length,
  get_elem?, get_or, set, length-set, ◌^◌, arith, ok,
}
use pc_project_2024_mtr.Prelude.Int.{ℤ, pos, pos_part, neg_part, sub_ℕ, ◌+ℤ◌, ◌-ℤ◌, ◌*ℤ◌}
use pc_project_2024_mtr.Matrix.{Matrix, IsValid, idx}
use pc_project_2024_mtr.Matrix.Cells.{fill, store_lem, get_elem?-fill_all}
use pc_project_2024_mtr.Product.{dot, cell, multiply}
use pc_project_2024_mtr.Product.Sequential.{Fits, multiply_lem}
use pc_project_2024_mtr.Operand.{random_number, init_cells, init_operand}

-- `llabs`
abbrev pub abs : ℤ → ℕ
abs a = pos_part a + neg_part a

abs-sub : (a b : ℕ) → abs (sub_ℕ a b) ≤ a + b
abs-sub a b = ground arith

abs-add : (a b : ℤ) → abs (a +ℤ b) ≤ abs a + abs b
unfolding ◌+ℤ◌
abs-add a b = omega (arith, abs-sub (pos_part a + pos_part b) (neg_part a + neg_part b))

abs-mul : (a b : ℤ) → abs (a *ℤ b) ≤ abs a * abs b
unfolding ◌*ℤ◌
abs-mul a b = grind (
  arith,
  abs-sub (pos_part a * pos_part b + neg_part a * neg_part b)
      (pos_part a * neg_part b + neg_part a * pos_part b),
)

random_number-small : (rand : ℕ → ℕ) (call : ℕ) → abs (random_number rand call) ≤ 5
unfolding random_number ◌-ℤ◌
random_number-small rand call = ground arith

-- Every cell of the array is at most `bound` in size.
abbrev pub IsSmall : ℕ → List ℤ → Type 0
IsSmall bound cells = (j : ℕ) → abs (get_or cells j (pos 0)) ≤ bound

mul-le : (a b c d : ℕ) → a ≤ c → b ≤ d → a * b ≤ c * d
mul-le a b c d p q = grind arith

dot-small :
    (a b : Matrix) (row col n bound : ℕ)
    → IsSmall bound a.cells
    → IsSmall bound b.cells
    → abs (dot a b row col n) ≤ bound * bound * n
unfolding dot
dot-small a b row col zero bound ha hb = omega arith
dot-small a b row col (suc n) bound ha hb =
    let x = get_or a.cells (idx row n a) (pos 0) in
    let y = get_or b.cells (idx n col b) (pos 0) in
    let one = mul-le _ _ bound bound (ha (idx row n a)) (hb (idx n col b)) in
    let more = abs-mul x y in
    let sum = abs-add (dot a b row col n) (x *ℤ y) in
    let before = dot-small a b row col n bound ha hb in grind (arith, one, more, sum, before)

set-small :
    (bound : ℕ) (cells : List ℤ) (i : ℕ) (v : ℤ)
    → abs v ≤ bound
    → ((j : ℕ) → j < i → abs (get_or cells j (pos 0)) ≤ bound)
    → (j : ℕ) → j < suc i
    → abs (get_or (set cells i v) j (pos 0)) ≤ bound
set-small bound [] i v hv h j hj = omega arith
set-small bound (x ∷ cells) zero v hv h zero hj = hv
set-small bound (x ∷ cells) zero v hv h (suc j) hj = absurd (omega arith)
set-small bound (x ∷ cells) (suc i) v hv h zero hj = h zero (omega arith)
set-small bound (x ∷ cells) (suc i) v hv h (suc j) hj =
    set-small bound cells i v hv (λ k hk. h (suc k) (omega arith)) j (omega arith)

beyond-IsSmall :
    (bound : ℕ) (cells : List ℤ)
    → ((j : ℕ) → j < length cells → abs (get_or cells j (pos 0)) ≤ bound)
    → IsSmall bound cells
beyond-IsSmall bound [] h j = omega arith
beyond-IsSmall bound (x ∷ cells) h zero = h zero (omega arith)
beyond-IsSmall bound (x ∷ cells) h (suc j) =
    beyond-IsSmall bound cells (λ k hk. h (suc k) (omega arith)) j

init_cells_lem :
    (rand : ℕ → ℕ) (call n idx : ℕ) (cells : List ℤ)
    → idx + n ≡ length cells
    → ((j : ℕ) → j < idx → abs (get_or cells j (pos 0)) ≤ 5)
    → (cells' : List ℤ) × (init_cells rand call n idx cells ≡ ok cells')
      × (length cells' ≡ length cells)
      × IsSmall 5 cells'
unfolding init_cells
init_cells_lem rand call zero idx cells e h =
    (cells, refl, refl, beyond-IsSmall 5 cells (λ j hj. h j (omega arith)))
init_cells_lem rand call (suc n) idx cells e h =
    let v = random_number rand call in
    let (cells', done, len, small) =
      init_cells_lem rand (suc call) n (suc idx) (set cells idx v)
        (omega (arith, length-set cells idx v))
        (set-small 5 cells idx v (random_number-small rand call) h) in
    (cells', rw (store_lem cells idx v (omega arith)) done, len ∙ length-set cells idx v, small)

-- The matrix `after` has the shape of `before`, an entry for each of its cells, and no entry of more
-- than 5 in size.
pub record IsOperand (before after : Matrix) : Type 0 where
  pub same_rows : after.rows ≡ before.rows
  pub same_cols : after.cols ≡ before.cols
  pub valid : IsValid after
  pub small : IsSmall 5 after.cells

abbrev pub AllValid : List Matrix → Type 0
AllValid [] = Unit
AllValid (m ∷ ms) = IsValid m × AllValid ms

abbrev pub AreOperands : List Matrix → List Matrix → Type 0
AreOperands [] [] = Unit
AreOperands (m ∷ ms) (m' ∷ ms') = IsOperand m m' × AreOperands ms ms'
AreOperands _ _ = ⊥

-- `init_operand` goes through on arrays that have a cell for each row and column, whatever `rand`
-- returns: every matrix keeps its shape, and all of its entries are from -5 to 5.
pub init_operand_lem :
    (rand : ℕ → ℕ) (call : ℕ) (operands : List Matrix)
    → AllValid operands
    → (after : List Matrix) × (init_operand rand call operands ≡ ok after)
      × AreOperands operands after
unfolding init_operand
init_operand_lem rand call [] h = ([], refl, tt)
init_operand_lem rand call (m ∷ ms) h =
    let size = m.cols * m.rows in
    let (cells, done, len, small) =
      init_cells_lem rand call size 0 m.cells (omega (arith, h.0)) (λ j hj. absurd (omega arith)) in
    let (rest, done', are) = init_operand_lem rand (call + size) ms h.1 in
    (
      record m { cells = cells } ∷ rest,
      rw (done, done') refl,
      (record { same_rows = refl; same_cols = refl; valid = len ∙ h.0; small = small }, are),
    )

-- Every sum that the programs form of products of such operands, with up to 2^58 columns.
dot_bound :
    (a b : Matrix) (row col n : ℕ)
    → IsSmall 5 a.cells
    → IsSmall 5 b.cells
    → n ≤ 2 ^ 58
    → abs (dot a b row col n) < 2 ^ 63
dot_bound a b row col n ha hb few = omega (arith, dot-small a b row col n 5 ha hb)

-- `multiply` goes through on operands that fit, with entries from -5 to 5 and up to 2^58 columns, and
-- every entry of the product is less than 2^63 in size: it fits in a `long long`.
pub multiply_bound :
    (a b product : Matrix)
    → Fits a b product
    → IsSmall 5 a.cells
    → IsSmall 5 b.cells
    → a.cols ≤ 2 ^ 58
    → (p : Matrix) × (multiply a b product ≡ ok p)
      × ((j : ℕ)
          → j < p.rows * p.cols
          → (v : ℤ) × (get_elem? p.cells j ≡ some v) × (abs v < 2 ^ 63))
multiply_bound a b product fits ha hb few = (
  record product { cells = fill (cell a b) 0 (product.rows * product.cols) product.cells },
  multiply_lem a b product fits,
  λ j hj. (
    cell a b j,
    get_elem?-fill_all (cell a b) _ product.cells j fits.target hj,
    dot_bound a b (j / b.cols) (j % b.cols) a.cols ha hb few,
  ),
)
