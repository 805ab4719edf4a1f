-- ===== src/Chat/Users/Loop.antt =====
-- The loop of `Server::broadcast` of hw/server.cpp over `users`, an entry at a time.
use pc_project_2024_mtr.Prelude.{
  ℕ, ◌≡◌, refl, ◌∙◌, subst, true, false, inl, inr, Bool-cases, [], ◌∷◌, Option, none, some,
  if◌then◌else◌, arith,
}
use pc_project_2024_mtr.Prelude.Text.{
  Bytes, before, before_irrefl, before_trans, same_string_iff, same_string_refl,
}
use pc_project_2024_mtr.Chat.Users.{Users, lookup, next_user}
use pc_project_2024_mtr.Chat.Users.Laws.{IsBehind, IsSorted, lookup-IsBehind}

-- The entries that the loop has still to come to.
abbrev pub behind : Option Bytes → Users → Users
behind none users = users
behind (some last) [] = []
behind (some last) ((name, client) ∷ users) =
    let rest = behind (some last) users in if before last name then (name, client) ∷ users else rest

pub next_user-nil :
    (last : Option Bytes) (users : Users) → behind last users ≡ [] → next_user last users ≡ none
unfolding next_user
next_user-nil none [] e = refl
next_user-nil none (user ∷ users) e = cc
next_user-nil (some last) [] e = refl
next_user-nil (some last) ((name, client) ∷ users) e =
    ground (arith, e, next_user-nil (some last) users)

pub next_user-cons :
    (last : Option Bytes) (users : Users) (user : Bytes × ℕ) (rest : Users)
    → behind last users ≡ user ∷ rest
    → next_user last users ≡ some user
unfolding next_user
next_user-cons none [] user rest e = cc
next_user-cons none (first ∷ users) user rest e = cc
next_user-cons (some last) [] user rest e = cc
next_user-cons (some last) ((name, client) ∷ users) user rest e =
    elim (Bool-cases (before last name)) [
      | inl h ↦ let e' : (name, client) ∷ users ≡ user ∷ rest = rw h at e in rw h (cc e')
      | inr h ↦
          let e' : behind (some last) users ≡ user ∷ rest = rw h at e in
          rw h (next_user-cons (some last) users user rest e')
    ]

IsBehind-behind :
    (first : Bytes) (last : Option Bytes) (users : Users) (name : Bytes) (client : ℕ) (rest : Users)
    → IsBehind first users
    → behind last users ≡ (name, client) ∷ rest
    → before first name ≡ true
IsBehind-behind first none [] name client rest b e = cc
IsBehind-behind first none ((other, found) ∷ users) name client rest b e =
    let same : other ≡ name = cc in rw (← same) b.0
IsBehind-behind first (some last) [] name client rest b e = cc
IsBehind-behind first (some last) ((other, found) ∷ users) name client rest b e =
    elim (Bool-cases (before last other)) [
      | inl h ↦
          let e' : (other, found) ∷ users ≡ (name, client) ∷ rest = rw h at e in
          let same : other ≡ name = cc e' in rw (← same) b.0
      | inr h ↦
          let e' : behind (some last) users ≡ (name, client) ∷ rest = rw h at e in
          IsBehind-behind first (some last) users name client rest b.1 e'
    ]

behind-first :
    (first : Bytes) (users : Users) → IsBehind first users → behind (some first) users ≡ users
behind-first first [] b = refl
behind-first first ((other, found) ∷ users) b = rw b.0

not_before : (s t : Bytes) → before s t ≡ true → before t s ≡ false
not_before s t h = elim (Bool-cases (before t s)) [
  | inl h' ↦ absurd (cc (before_trans s t s h h', before_irrefl s))
  | inr h' ↦ h'
]

-- Behind an entry come those that stood behind it.
pub behind-next :
    (last : Option Bytes) (users : Users) (name : Bytes) (client : ℕ) (rest : Users)
    → IsSorted users
    → behind last users ≡ (name, client) ∷ rest
    → behind (some name) users ≡ rest
behind-next last [] name client rest s e = empty last e
  where
    empty :
        (last : Option Bytes)
        → behind last [] ≡ (name, client) ∷ rest
        → behind (some name) [] ≡ rest
    empty none e = cc
    empty (some l) e = cc
behind-next none ((other, found) ∷ users) name client rest s e =
    let same : other ≡ name = cc in
    let tail : users ≡ rest = cc in
    subst (λ n. behind (some n) ((other, found) ∷ users) ≡ rest) same
      (rw (before_irrefl other) (behind-first other users s.0 ∙ tail))
behind-next (some last) ((other, found) ∷ users) name client rest s e =
    elim (Bool-cases (before last other)) [
      | inl h ↦
          let e' : (other, found) ∷ users ≡ (name, client) ∷ rest = rw h at e in
          let same : other ≡ name = cc e' in
          let tail : users ≡ rest = cc e' in
          subst (λ n. behind (some n) ((other, found) ∷ users) ≡ rest) same
            (rw (before_irrefl other) (behind-first other users s.0 ∙ tail))
      | inr h ↦
          let e' : behind (some last) users ≡ (name, client) ∷ rest = rw h at e in
          let later : before name other ≡ false =
            not_before other name
              (IsBehind-behind other (some last) users name client rest s.0 e') in
          rw later (behind-next (some last) users name client rest s.1 e')
    ]

-- The entry to which the loop comes is one of the map.
pub next_user-lookup :
    (last : Option Bytes) (users : Users) (name : Bytes) (client : ℕ)
    → IsSorted users
    → next_user last users ≡ some (name, client)
    → lookup name users ≡ some client
unfolding next_user lookup
next_user-lookup none [] name client s e = cc
next_user-lookup none ((other, found) ∷ users) name client s e =
    ground (arith, e, same_string_refl name)
next_user-lookup (some last) [] name client s e = cc
next_user-lookup (some last) ((other, found) ∷ users) name client s e =
    elim (Bool-cases (before last other)) [
      | inl h ↦
          let e' : some (other, found) ≡ some (name, client) = rw h at e in
          ground (arith, e', same_string_refl name)
      | inr h ↦
          let e' : next_user (some last) users ≡ some (name, client) = rw h at e in
          let later : lookup name users ≡ some client =
            next_user-lookup (some last) users name client s.1 e' in
          ground (arith, later, lookup-IsBehind other users s.0, same_string_iff name other)
    ]
