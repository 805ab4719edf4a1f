-- ===== src/Chat/Users/Laws.antt =====
-- The order of the users, and who is found after an insertion or an erasure.
use pc_project_2024_mtr.Prelude.{
  ℕ, ◌≡◌, refl, true, false, [], ◌∷◌, none, some, if◌then◌else◌, arith, Bool-cases, inl, inr,
}
use pc_project_2024_mtr.Prelude.Text.{
  Bytes, same_string, before, same_string_iff, before_irrefl, before_trans, before_total,
}
use pc_project_2024_mtr.Chat.Users.{Users, lookup, insert, erase}

-- All names stand behind `name`.
abbrev pub IsBehind : Bytes → Users → Type 0
IsBehind name [] = Unit
IsBehind name ((other, client) ∷ users) = (before name other ≡ true) × IsBehind name users

abbrev pub IsSorted : Users → Type 0
IsSorted [] = Unit
IsSorted ((name, client) ∷ users) = IsBehind name users × IsSorted users

pub before-same_string : (s t : Bytes) → before s t ≡ true → same_string s t ≡ false
before-same_string s t h = elim (Bool-cases (same_string s t)) [
  | inl e ↦ absurd (cc (h, before_irrefl s, (same_string_iff s t).0 e))
  | inr e ↦ e
]

IsBehind-trans :
    (name other : Bytes) (users : Users)
    → before name other ≡ true
    → IsBehind other users
    → IsBehind name users
IsBehind-trans name other [] h b = tt
IsBehind-trans name other ((third, client) ∷ users) h b =
    (before_trans name other third h b.0, IsBehind-trans name other users h b.1)

pub lookup-IsBehind :
    (name : Bytes) (users : Users) → IsBehind name users → lookup name users ≡ none
unfolding lookup
lookup-IsBehind name [] b = refl
lookup-IsBehind name ((other, client) ∷ users) b =
    rw (before-same_string name other b.0) (lookup-IsBehind name users b.1)

IsBehind-insert :
    (first name : Bytes) (client : ℕ) (users : Users)
    → before first name ≡ true
    → IsBehind first users
    → IsBehind first (insert name client users)
unfolding insert
IsBehind-insert first name client [] h b = (h, tt)
IsBehind-insert first name client ((other, old) ∷ users) h b =
    ground (arith, IsBehind-insert first name client users h b.1)

pub IsSorted-insert :
    (name : Bytes) (client : ℕ) (users : Users)
    → IsSorted users
    → IsSorted (insert name client users)
unfolding insert
IsSorted-insert name client [] s = (tt, tt)
IsSorted-insert name client ((other, old) ∷ users) s = elim (Bool-cases (same_string name other)) [
  | inl e ↦ rw e s
  | inr ne ↦ elim (Bool-cases (before name other)) [
    | inl less ↦ rw (ne, less) ((less, IsBehind-trans name other users less s.0), s)
    | inr more ↦
        rw (ne, more)
          (
            IsBehind-insert other name client users (before_total name other ne more) s.0,
            IsSorted-insert name client users s.1,
          )
  ]
]

IsBehind-erase :
    (first name : Bytes) (users : Users) → IsBehind first users → IsBehind first (erase name users)
unfolding erase
IsBehind-erase first name [] b = tt
IsBehind-erase first name ((other, client) ∷ users) b =
    ground (arith, IsBehind-erase first name users b.1)

pub IsSorted-erase : (name : Bytes) (users : Users) → IsSorted users → IsSorted (erase name users)
unfolding erase
IsSorted-erase name [] s = tt
IsSorted-erase name ((other, client) ∷ users) s =
    ground (arith, IsSorted-erase name users s.1, IsBehind-erase other name users s.0)

pub lookup-insert :
    (key name : Bytes) (client : ℕ) (users : Users)
    → lookup key (insert name client users)
      ≡ (if same_string key name then some client else lookup key users)
unfolding lookup insert
lookup-insert key name client [] = refl
lookup-insert key name client ((other, old) ∷ users) = ground (
  arith,
  lookup-insert key name client users,
  same_string_iff key name,
  same_string_iff key other,
  same_string_iff name other,
)

pub lookup-erase :
    (key name : Bytes) (users : Users)
    → IsSorted users
    → lookup key (erase name users) ≡ (if same_string key name then none else lookup key users)
unfolding lookup erase
lookup-erase key name [] s = ground arith
lookup-erase key name ((other, client) ∷ users) s = ground (
  arith,
  lookup-erase key name users s.1,
  lookup-IsBehind other users s.0,
  same_string_iff key name,
  same_string_iff key other,
  same_string_iff name other,
)
