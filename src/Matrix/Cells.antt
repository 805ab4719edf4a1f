-- ===== src/Matrix/Cells.antt =====
-- Reads and writes of a matrix's cells, and ranges of cells that are written one after the other.
use pc_project_2024_mtr.Prelude.{
  ◌∙◌, sym, ℕ, zero, suc, ◌+◌, ◌*◌, ◌/◌, ◌%◌, ◌<◌, ◌≡◌, refl, List, some, arith, length, get_elem?,
  get_or, set, length-set, get_elem?-eq-get_or, get_elem?-set_self, get_elem?-set_ne,
  get_elem?_of_length-le, list_ext, lt→ltb, ok, if◌then◌else◌, ltb, leb, ◌&&◌, dec_lt,
}
use pc_project_2024_mtr.Prelude.Int.{ℤ, pos}
use pc_project_2024_mtr.Matrix.{load, store}

pub load_lem :
    (cells : List ℤ) (i : ℕ) → i < length cells → load cells i ≡ ok (get_or cells i (pos 0))
unfolding load
load_lem cells i h = rw (get_elem?-eq-get_or cells i (pos 0) h)

pub store_lem :
    (cells : List ℤ) (i : ℕ) (v : ℤ) → i < length cells → store cells i v ≡ ok (set cells i v)
unfolding store
store_lem cells i v h = rw (lt→ltb _ _ h)

pub idx_in_range :
    (row col rows cols : ℕ) → row < rows → col < cols → row * cols + col < rows * cols
idx_in_range row col rows cols p q = grind arith

pub div_unique : (row col cols i : ℕ) → row * cols + col ≡ i → col < cols → i / cols ≡ row
div_unique row col cols i e h = grind arith

pub mod_unique : (row col cols i : ℕ) → row * cols + col ≡ i → col < cols → i % cols ≡ col
mod_unique row col cols i e h = grind arith

-- `f i`, `f (i + 1)`, … written into the `n` cells from `i` on.
unfoldable pub fill : (ℕ → ℤ) → ℕ → ℕ → List ℤ → List ℤ
fill f i zero cells = cells
fill f i (suc n) cells = fill f (suc i) n (set cells i (f i))

pub length-fill : (f : ℕ → ℤ) (i n : ℕ) (cells : List ℤ) → length (fill f i n cells) ≡ length cells
unfolding fill
length-fill f i zero cells = refl
length-fill f i (suc n) cells =
    length-fill f (suc i) n (set cells i (f i)) ∙ length-set cells i (f i)

-- Each cell after the writes.
pub get_elem?-fill :
    (f : ℕ → ℤ) (i n : ℕ) (cells : List ℤ) (j : ℕ)
    → j < length cells
    → get_elem? (fill f i n cells) j
      ≡ (if leb i j && ltb j (i + n) then some (f j) else get_elem? cells j)
unfolding fill
get_elem?-fill f i zero cells j h = ground arith
get_elem?-fill f i (suc n) cells j h = ground (
  arith,
  get_elem?-fill f (suc i) n (set cells i (f i)) j,
  length-set cells i (f i),
  get_elem?-set_self cells i (f i),
  get_elem?-set_ne cells {i = i} {j = j} (f i),
)

pub fill-nothing : (f : ℕ → ℤ) (i n : ℕ) (cells : List ℤ) → n ≡ 0 → fill f i n cells ≡ cells
unfolding fill
fill-nothing f i zero cells e = refl
fill-nothing f i (suc n) cells e = absurd (omega arith)

-- A range may be written in two parts.
pub fill-fill :
    (f : ℕ → ℤ) (i n k j m : ℕ) (cells : List ℤ)
    → i + n ≡ j
    → n + k ≡ m
    → fill f j k (fill f i n cells) ≡ fill f i m cells
unfolding fill
fill-fill f i zero k j m cells ej em =
    let e : j ≡ i = omega arith in let e' : k ≡ m = omega arith in rw (e, e')
fill-fill f i (suc n) k j zero cells ej em = absurd (omega arith)
fill-fill f i (suc n) k j (suc m) cells ej em =
    fill-fill f (suc i) n k j m (set cells i (f i)) (omega arith) (omega arith)

pub get_elem?-fill_all :
    (f : ℕ → ℤ) (n : ℕ) (cells : List ℤ) (j : ℕ)
    → length cells ≡ n
    → j < n
    → get_elem? (fill f 0 n cells) j ≡ some (f j)
get_elem?-fill_all f n cells j e h = ground (arith, get_elem?-fill f 0 n cells j)

-- An array all of whose cells are known.
pub eq-fill :
    (f : ℕ → ℤ) (n : ℕ) (cells cells' : List ℤ)
    → length cells ≡ n
    → length cells' ≡ n
    → ((j : ℕ) → j < n → get_elem? cells' j ≡ some (f j))
    → fill f 0 n cells ≡ cells'
eq-fill f n cells cells' e e' h = list_ext _ _ at_each
  where
    at_each : (j : ℕ) → get_elem? (fill f 0 n cells) j ≡ get_elem? cells' j
    at_each j = elim (dec_lt j n) [
      | yes inside ↦ get_elem?-fill_all f n cells j e inside ∙ sym (h j inside)
      | no outside ↦
          get_elem?_of_length-le (fill f 0 n cells) j (omega (arith, length-fill f 0 n cells))
          ∙ sym (get_elem?_of_length-le cells' j (omega arith))
    ]
