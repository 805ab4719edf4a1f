-- ===== src/Tank/Resize.antt =====
-- `resize` of task1/Tank.cpp, and the write that makes one more item.
use pc_project_2024_mtr.Prelude.{
  ◌==◌, ◌&&◌, if◌then◌else◌, ℕ, suc, ◌*◌, ◌/◌, ◌^◌, ◌≤◌, ◌<◌, ◌≡◌, ◌⊎◌, inl, inr, Bool-cases, refl,
  ◌≢◌, subst, ℕ_discrete, sym, ap, ◌∙◌, true, List, [], ◌∷◌, ◌++◌, Option, none, some, arith, map,
  length, ltb, set, ◌>>=◌, length-append, lt→ltb, le→leb, Outcome, ok, exit, Error,
}
use native.Mathlib.Nat.{mod-eq_of_lt, mul-div_cancel}
use mathlib.Core.Option.{some-injective}
use pc_project_2024_mtr.Tank.{
  Heap, update, word, Allocator, Tank, resized, bytes, reallocate, resize, store, assert,
}
use pc_project_2024_mtr.Tank.Holds.{
  Owns, nothing, array, Holds, update_at, resized_items, set_behind, length-map-some,
}

module _ {ℓ} {A : Type ℓ} (allocator : Allocator A) where
  open allocator use {size_of, realloc, zero_frees}

  -- A size that `resize` may be asked for: its bytes do not wrap, and a size of 0 gives the array up.
  abbrev pub IsSize : ℕ → Type 0
  IsSize n = (n * size_of < word) × ((0 < n) ⊎ (zero_frees ≡ true))

  pub data Resizes (base h : Heap A) (t : Tank) (xs : List A) (n : ℕ)
      : Outcome (Tank × Heap A) → Type ℓ where
    moved :
        (t' : Tank) (h' : Heap A)
        → Holds allocator base h' t' xs
        → t'.filled ≡ t.filled
        → t'.max_capacity ≡ n
        → Resizes base h t xs n (ok (t', h'))
    refused :
        realloc h t.items (n * size_of) ≡ none
        → 0 < n
        → Resizes base h t xs n (exit Error.failed_assertion)

  pub bytes_lem : (n : ℕ) → n * size_of < word → bytes allocator n ≡ n * size_of
  unfolding bytes
  bytes_lem n h = mod-eq_of_lt h

  pub slots_lem : (n : ℕ) → (n * size_of) / size_of ≡ n
  slots_lem n = mul-div_cancel n allocator.size_of_pos

  nil_of_length : (xs : List A) → length xs ≤ 0 → xs ≡ []
  nil_of_length [] h = refl
  nil_of_length (x ∷ xs) h = absurd (omega arith)

  pub update-update :
      (base h : Heap A) (p : ℕ) (b : Option (List (Option A)))
      → ((q : ℕ) → p ≢ q → h q ≡ base q)
      → (q : ℕ) → update h p b q ≡ update base p b q
  update-update base h p b elsewhere q = elim (Bool-cases (p == q)) [
    | inl e ↦ rw e
    | inr e ↦ rw e (elsewhere q (ground arith))
  ]

  -- The array that `realloc` returns, in a heap that has nothing else of the tank's.
  new_array :
      (base h : Heap A) (p : ℕ) (xs : List A) (rest : List (Option A)) (n : ℕ)
      → length xs ≤ n
      → base p ≡ none
      → ((q : ℕ) → p ≢ q → h q ≡ base q)
      → Owns base
          (update h p (some (resized (n * size_of / size_of) (map some xs ++ rest))))
          xs
          n
          (some p)
  new_array base h p xs rest n room free elsewhere =
      let (rest', e, len) = resized_items xs rest n room in
      rw (slots_lem n, e) (array p rest' free len (update-update base h p _ elsewhere))

  -- The heap without the array is `base`.
  pub without :
      (base h : Heap A) (old : ℕ) (slots : Option (List (Option A)))
      → base old ≡ none
      → ((q : ℕ) → h q ≡ update base old slots q)
      → (q : ℕ) → update h old none q ≡ base q
  without base h old slots free same q = elim (ℕ_discrete old q) [
    | yes e ↦ rw (← e) (ground arith)
    | no ne ↦ ground (arith, same q)
  ]

  data Reallocates (base h : Heap A) (pointer : Option ℕ) (xs : List A) (n : ℕ)
      : Outcome (Option ℕ × Heap A) → Type ℓ where
    moved_to :
        (p : ℕ) (h' : Heap A)
        → Owns base h' xs n (some p)
        → n * size_of < 2 ^ 63
        → Reallocates base h pointer xs n (ok (some p, h'))
    null :
        (h' : Heap A)
        → realloc h pointer (n * size_of) ≡ none
        → (n ≡ 0 → zero_frees ≡ true → Owns base h' xs 0 none)
        → Reallocates base h pointer xs n (ok (none, h'))

  reallocate-lem :
      (base h : Heap A) (xs : List A) (capacity n : ℕ) {pointer : Option ℕ}
      → Owns base h xs capacity pointer
      → length xs ≤ n
      → Reallocates base h pointer xs n (reallocate allocator h pointer (n * size_of))
  unfolding reallocate
  reallocate-lem base h xs capacity n (nothing e e' same) room =
      go (realloc h none (n * size_of)) refl
    where
      unused : {p : ℕ} → (h p ≡ none) ⊎ (none ≡ some p) → h p ≡ none
      unused (inl e) = e
      unused (inr e) = cc

      go :
          (r : Option ℕ)
          → realloc h none (n * size_of) ≡ r
          → Reallocates base h none xs n (elim r [
            | none ↦ ok (none, h)
            | some p ↦ ok (some p, update h p (some (resized (n * size_of / size_of) [])))
          ])
      go none given = null h given (λ _ _. nothing refl e' same)
      go (some p) given =
          moved_to p _
            (subst
              (λ l. Owns base (update h p (some (resized (n * size_of / size_of) l))) xs n (some p))
              (rw e')
              (new_array base h p xs [] n room
                (sym (same p) ∙ unused (allocator.realloc_fresh h none (n * size_of) p given))
                (λ q _. same q)))
            (allocator.realloc_small h none (n * size_of) p given)
  reallocate-lem base h xs capacity n (array old rest free e same) room =
      rw (same old, update_at base old (some (map some xs ++ rest)))
        (go (realloc h (some old) (n * size_of)) refl)
    where
      unused : {p : ℕ} → (h p ≡ none) ⊎ (some old ≡ some p) → base p ≡ none
      unused {p} (inl e) = ground (arith, same p)
      unused {p} (inr e) = rw (← some-injective old p e) free

      go :
          (r : Option ℕ)
          → realloc h (some old) (n * size_of) ≡ r
          → Reallocates base h (some old) xs n (elim r [
            | none ↦ ok (none, if n * size_of == 0 && zero_frees then update h old none else h)
            | some p ↦ ok (
              some p,
              update
                  (update h old none)
                  p
                  (some (resized (n * size_of / size_of) (map some xs ++ rest))),
            )
          ])
      go none given = null _ given (λ z f. nothing refl (nil_of_length xs (omega arith)) (λ q.
          let zero_bytes : n * size_of ≡ 0 = omega (arith, ap (λ (m : ℕ). m * size_of) z) in
          rw (zero_bytes, f) (without base h old _ free same q)))
      go (some p) given =
          moved_to p _
            (new_array base (update h old none) p xs rest n room
              (unused (allocator.realloc_fresh h (some old) (n * size_of) p given))
              (λ q _. without base h old _ free same q))
            (allocator.realloc_small h (some old) (n * size_of) p given)

  pub resize-Resizes :
      (base h : Heap A) (t : Tank) (xs : List A) (n : ℕ)
      → Holds allocator base h t xs
      → length xs ≤ n
      → IsSize n
      → Resizes base h t xs n (resize allocator t h n)
  unfolding resize
  resize-Resizes base h t xs n holds room (fits, some_size) =
      let enough : t.filled ≤ n = omega (arith, holds.count) in
      rw (le→leb _ _ enough, mod-eq_of_lt fits)
        (go (reallocate allocator h t.items (n * size_of))
          (reallocate-lem base h xs t.max_capacity n holds.owns room))
    where
      go :
          (r : Outcome (Option ℕ × Heap A))
          → Reallocates base h t.items xs n r
          → Resizes base h t xs n (
              r >>= λ x. elim x.0 [
                | none ↦ assert (n == 0) (ok (record t { items = none; max_capacity = n }, x.1))
                | some p ↦ ok (record t { items = some p; max_capacity = n }, x.1)
              ])
      go r (moved_to p h' owns small) =
          moved _ _ (record { count = holds.count; small = small; owns = owns }) refl refl
      go r (null h' given none_left) = elim (Bool-cases (n == 0)) [
        | inl e ↦
            let zero_size : n ≡ 0 = ground arith in
            let gives_up : zero_frees ≡ true = elim some_size [
              | inl pos_size ↦ absurd (omega arith)
              | inr f ↦ f
            ] in
            rw e (
              moved _ _
                (record {
                  count = holds.count;
                  small = omega (arith, ap (λ (m : ℕ). m * size_of) zero_size);
                  owns = rw zero_size (none_left zero_size gives_up);
                })
                refl refl)
        | inr e ↦ rw e (refused given (ground arith))
      ]

  pub store_next :
      (base h : Heap A) (t : Tank) (xs : List A) (x : A)
      → Holds allocator base h t xs
      → t.filled < t.max_capacity
      → (h' : Heap A) × (store t h t.filled x ≡ ok h')
        × Holds allocator base h' (record t { filled = suc t.filled }) (xs ++ (x ∷ []))
  unfolding store
  store_next base h t xs x holds room = go t.items holds.owns
    where
      go :
          (pointer : Option ℕ)
          → Owns base h xs t.max_capacity pointer
          → (h' : Heap A) × (store (record t { items = pointer }) h t.filled x ≡ ok h')
            × Holds allocator base h'
                (record t { items = pointer; filled = suc t.filled })
                (xs ++ (x ∷ []))
      go none (nothing e e' same) = absurd (omega arith)
      go (some p) (array p' [] free len same) = absurd (omega (arith, holds.count))
      go (some p) (array p' (slot ∷ rest) free len same) =
          let e : t.filled ≡ length xs = holds.count in
          let slots : List (Option A) = map some xs ++ (slot ∷ rest) in
          let inside : ltb (length xs) (length slots) ≡ true =
            lt→ltb _ _
              (omega (arith, length-append (map some xs) (slot ∷ rest), length-map-some xs)) in
          (
            update h p (some (set slots (length xs) (some x))),
            rw (same p, update_at base p (some slots), e, inside),
            record {
              count = omega (arith, e, length-append xs (x ∷ []));
              small = holds.small;
              owns = array p rest free (omega (arith, len, length-append xs (x ∷ []))) (λ q.
                  rw (set_behind xs slot rest x)
                    (update-update base h p _ (λ r ne. ground (arith, same r)) q));
            },
          )
