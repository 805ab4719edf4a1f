-- ===== src/Tank/Holds.antt =====
-- What it means that a tank of task1/Tank.h holds a list, and what its array then has in its slots.
use pc_project_2024_mtr.Prelude.{
  ℕ, zero, suc, ◌+◌, ◌-◌, ◌*◌, ◌^◌, ◌≤◌, ◌<◌, ◌≡◌, refl, ap, ◌∙◌, List, [], ◌∷◌, ◌++◌, Option, none,
  some, arith, map, length, get_elem?, set, take, replicate, length-append, length-replicate,
  append_assoc, ok,
}
use pc_project_2024_mtr.Tank.{Heap, update, Allocator, Tank, resized, load, block}

pub below : (a b : ℕ) → 0 < b → a * b < 2 ^ 63 → a < 2 ^ 63
below a b h k = grind arith

module _ {ℓ} {A : Type ℓ} where
  -- `items` points to the array that starts with `xs`, of so many slots, and the rest of the heap is
  -- `base`.
  pub data Owns (base h : Heap A) (xs : List A) (capacity : ℕ) : Option ℕ → Type ℓ where
    nothing : capacity ≡ 0 → xs ≡ [] → ((q : ℕ) → h q ≡ base q) → Owns base h xs capacity none
    array :
        (p : ℕ) (rest : List (Option A))
        → base p ≡ none
        → length xs + length rest ≡ capacity
        → ((q : ℕ) → h q ≡ update base p (some (map some xs ++ rest)) q)
        → Owns base h xs capacity (some p)

  -- A tank that holds `xs`; `base` is the heap without its array.
  pub record Holds (allocator : Allocator A) (base h : Heap A) (t : Tank) (xs : List A)
      : Type ℓ where
    pub count : t.filled ≡ length xs
    pub small : t.max_capacity * allocator.size_of < 2 ^ 63
    pub owns : Owns base h xs t.max_capacity t.items

  pub update_at : (h : Heap A) (p : ℕ) (b : Option (List (Option A))) → update h p b p ≡ b
  update_at h p b = ground arith

  pub length-map-some : (xs : List A) → length (map some xs) ≡ length xs
  length-map-some [] = refl
  length-map-some (x ∷ xs) = ap suc (length-map-some xs)

  pub slot-lem :
      (xs : List A) (rest : List (Option A)) (i : ℕ) (x : A)
      → get_elem? xs i ≡ some x
      → get_elem? (map some xs ++ rest) i ≡ some (some x)
  slot-lem [] rest i x e = cc
  slot-lem (y ∷ xs) rest zero x e = cc
  slot-lem (y ∷ xs) rest (suc i) x e = slot-lem xs rest i x e

  -- A write behind the items makes one more item.
  pub set_behind :
      (xs : List A) (slot : Option A) (rest : List (Option A)) (x : A)
      → set (map some xs ++ (slot ∷ rest)) (length xs) (some x) ≡ map some (xs ++ (x ∷ [])) ++ rest
  set_behind [] slot rest x = refl
  set_behind (y ∷ xs) slot rest x = ap (λ l. some y ∷ l) (set_behind xs slot rest x)

  items-append :
      (xs : List A) (x : A) (rest : List (Option A))
      → map some (xs ++ (x ∷ [])) ++ rest ≡ map some xs ++ (some x ∷ rest)
  items-append [] x rest = refl
  items-append (y ∷ xs) x rest = ap (λ l. some y ∷ l) (items-append xs x rest)

  take-append :
      (xs : List A) (rest : List (Option A)) (n : ℕ)
      → length xs ≤ n
      → take n (map some xs ++ rest) ≡ map some xs ++ take (n - length xs) rest
  take-append [] rest n h = let e : n - 0 ≡ n = omega arith in rw e
  take-append (x ∷ xs) rest zero h = absurd (omega arith)
  take-append (x ∷ xs) rest (suc n) h =
      let e : suc n - suc (length xs) ≡ n - length xs = omega arith in
      rw e (ap (λ l. some x ∷ l) (take-append xs rest n (omega arith)))

  length-take : (n : ℕ) (xs : List (Option A)) → length (take n xs) + (length xs - n) ≡ length xs
  length-take zero xs = omega arith
  length-take (suc n) [] = omega arith
  length-take (suc n) (x ∷ xs) = omega (arith, length-take n xs)

  -- An array that was moved still starts with the items, where it has room for them.
  pub resized_items :
      (xs : List A) (rest : List (Option A)) (n : ℕ)
      → length xs ≤ n
      → (rest' : List (Option A)) × (resized n (map some xs ++ rest) ≡ map some xs ++ rest')
        × (length xs + length rest' ≡ n)
  unfolding resized
  resized_items xs rest n h =
      let fresh : List (Option A) = replicate (n - length (map some xs ++ rest)) none in
      (
        take (n - length xs) rest ++ fresh,
        rw (take-append xs rest n h) (append_assoc (map some xs) (take (n - length xs) rest) fresh),
        omega (
          arith,
          length-append (take (n - length xs) rest) fresh,
          length-append (map some xs) rest,
          length-map-some xs,
          length-take (n - length xs) rest,
          length-replicate {A = Option A} (n - length (map some xs ++ rest)) none,
        ),
      )

  block-Owns :
      (base h : Heap A) (xs : List A) (capacity : ℕ) {pointer : Option ℕ} (i : ℕ) (x : A)
      → Owns base h xs capacity pointer
      → get_elem? xs i ≡ some x
      → (rest : List (Option A)) × (block h pointer ≡ ok (map some xs ++ rest))
  unfolding block
  block-Owns base h xs capacity i x (nothing e e' same) x_at =
      absurd (cc (ap (λ l. get_elem? l i) e'))
  block-Owns base h xs capacity i x (array p rest free e same) x_at =
      (rest, rw (same p, update_at base p (some (map some xs ++ rest))))

  pub load_item :
      (allocator : Allocator A) {base h : Heap A} {t : Tank} {xs : List A} (i : ℕ) (x : A)
      → Holds allocator base h t xs
      → get_elem? xs i ≡ some x
      → load t h i ≡ ok x
  unfolding load
  load_item allocator {base} {h} {t} {xs} i x holds e =
      let (rest, found) = block-Owns base h xs t.max_capacity i x holds.owns e in
      rw (found, slot-lem xs rest i x e)

  fits-Owns :
      (base h : Heap A) (xs : List A) (capacity : ℕ) {pointer : Option ℕ}
      → Owns base h xs capacity pointer
      → length xs ≤ capacity
  fits-Owns base h xs capacity (nothing e e' same) = omega (arith, ap length e')
  fits-Owns base h xs capacity (array p rest free e same) = omega arith

  pub Holds-fits :
      (allocator : Allocator A) {base h : Heap A} {t : Tank} {xs : List A}
      → Holds allocator base h t xs
      → (t.filled ≤ t.max_capacity) × (t.max_capacity < 2 ^ 63)
  Holds-fits allocator {base} {h} {t} {xs} holds = (
    omega (arith, holds.count, fits-Owns base h xs t.max_capacity holds.owns),
    below t.max_capacity allocator.size_of allocator.size_of_pos holds.small,
  )

  -- Without its last item the tank holds the others.
  pub Holds-front :
      (allocator : Allocator A) {base h : Heap A} {t : Tank} (ys : List A) (x : A)
      → Holds allocator base h t (ys ++ (x ∷ []))
      → Holds allocator base h (record t { filled = t.filled - 1 }) ys
  Holds-front allocator {base} {h} {t} ys x holds = record {
    count = omega (arith, holds.count, length-append ys (x ∷ []));
    small = holds.small;
    owns = front holds.owns;
  }
    where
      front :
          {pointer : Option ℕ}
          → Owns base h (ys ++ (x ∷ [])) t.max_capacity pointer
          → Owns base h ys t.max_capacity pointer
      front (nothing e e' same) = absurd (omega (arith, ap length e', length-append ys (x ∷ [])))
      front (array p rest free e same) =
          array p (some x ∷ rest) free (omega (arith, e, length-append ys (x ∷ [])))
            (λ q. same q ∙ ap (λ l. update base p (some l) q) (items-append ys x rest))
