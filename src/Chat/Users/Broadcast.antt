-- ===== src/Chat/Users/Broadcast.antt =====
-- Whom `Server::broadcast` of hw/server.cpp sends a message.
use pc_project_2024_mtr.Prelude.{
  ℕ, ◌≡◌, refl, Bool, false, List, [], ◌∷◌, ◌++◌, Option, none, some, ◌==◌, if◌then◌else◌, arith,
}
use pc_project_2024_mtr.Prelude.Text.{Bytes, same_string_iff, same_string_refl}
use pc_project_2024_mtr.Chat.Users.{Users, lookup, broadcast}
use pc_project_2024_mtr.Chat.Users.Laws.{IsSorted, lookup-IsBehind}

-- What one client gets of a list of messages.
unfoldable pub received : ℕ → List (ℕ × Bytes) → List Bytes
received client [] = []
received client ((other, message) ∷ sent) =
    let rest = received client sent in if client == other then message ∷ rest else rest

pub received-append :
    (client : ℕ) (v w : List (ℕ × Bytes))
    → received client (v ++ w) ≡ received client v ++ received client w
unfolding received
received-append client [] w = refl
received-append client ((other, message) ∷ v) w = ground (arith, received-append client v w)

-- The client stands under the name.
abbrev pub is_user : ℕ → Option ℕ → Bool
is_user client none = false
is_user client (some other) = client == other

pub received-broadcast :
    (client sender : ℕ) (name message : Bytes) (users : Users)
    → IsSorted users
    → ((other : Bytes) → lookup other users ≡ some client → other ≡ name)
    → received client (broadcast users sender message) ≡ (
        if client == sender
        then []
        else if is_user client (lookup name users)
        then message ∷ []
        else [])
unfolding received broadcast lookup
received-broadcast client sender name message [] s only = ground arith
received-broadcast client sender name message ((other, found) ∷ users) s only = ground (
  arith,
  received-broadcast client sender name message users s.1 later,
  lookup-IsBehind other users s.0,
  only other,
  same_string_iff name other,
  same_string_refl other,
)
  where
    later : (third : Bytes) → lookup third users ≡ some client → third ≡ name
    later third e =
        ground (arith, only third, e, lookup-IsBehind other users s.0, same_string_iff third other)
