-- ===== src/Tests/Rooms.antt =====
-- Runs of the chat server of hw/server.cpp in a given order of its threads.
use pc_project_2024_mtr.Prelude.{
  ℕ, ◌<◌, ◌≡◌, refl, Bool, true, false, List, [], ◌∷◌, ◌++◌, replicate, Option, none, some, dec_lt,
  inl, inr, ok, Outcome, ◌⊎◌,
}
use pc_project_2024_mtr.Prelude.Int.{pos, negsuc, ◌+ℤ◌, ◌-ℤ◌}
use pc_project_2024_mtr.Prelude.Text.{Bytes, codes, same_string, before}
use pc_project_2024_mtr.Chat.Users.{lookup, insert, erase, next_user}
use pc_project_2024_mtr.Chat.Message.{Heard, get_message, receive, c_string}
use pc_project_2024_mtr.Chat.Settings.{Options}
use pc_project_2024_mtr.Chat.Handler.{
  proceed, listens, hear, has_ended, answer, announce, tell, send_message, close, take_name,
  try_register, register_client, unregister_client, is_list, is_bye,
}
use pc_project_2024_mtr.Chat.Room.{
  Main, testing, checking, accepting, counting, spawning, stopping, Room, can_accept, Step, init,
  Reach, start, later,
}

abbrev pub two_places : Options
two_places = record { port = pos 8000; max_concurrent_clients = pos 2; timeout = negsuc 0 }

pub record Run : Type 0 where
  pub last : Room
  pub reach : Reach two_places last

-- `main` accepts one client; a client's thread goes on, or gets some bytes.
pub data Move : Type 0 where
  arrives : Move
  goes : ℕ → Move
  hears : ℕ → Bytes → Move

-- `Bool-cases`, open.
abbrev decided : (b : Bool) → (b ≡ true) ⊎ (b ≡ false)
decided true = inl refl
decided false = inr refl

Next : Room → Type 0
Next r = Option ((s : Room) × Step two_places r s)

main_next : (r : Room) (m : Main) → r.main ≡ m → Next r
unfolding Next
main_next r testing e = elim (decided r.running) [
  | inl on ↦ some (_, Step.enter e on)
  | inr off ↦ none
]
main_next r checking e = elim (decided r.running) [
  | inl on ↦ elim (decided (can_accept two_places r)) [
    | inl free ↦ some (_, Step.find_place e on free)
    | inr full ↦ none
  ]
  | inr off ↦ none
]
main_next r accepting e = some (_, Step.connect e)
main_next r counting e = some (_, Step.count e)
main_next r spawning e = elim (decided r.running) [
  | inl on ↦ some (_, Step.spawn e on)
  | inr off ↦ none
]
main_next r stopping e = none

goes_next : (r : Room) (client : ℕ) → Next r
unfolding Next dec_lt
goes_next r client = elim (dec_lt client r.next) [
  | yes below ↦ elim (decided (listens (r.sessions client))) [
    | inl waits ↦ none
    | inr acts ↦ elim (decided (has_ended (r.sessions client).phase)) [
      | inl over ↦ none
      | inr lives ↦ some (_, Step.handle client below acts lives)
    ]
  ]
  | no _ ↦ none
]

hears_next : (r : Room) (client : ℕ) → Bytes → Next r
unfolding Next dec_lt
hears_next r client bytes = elim (dec_lt client r.next) [
  | yes below ↦ elim (decided (listens (r.sessions client))) [
    | inl waits ↦ go below waits (get_message (negsuc 0) (pos 1) (some bytes)) refl
    | inr acts ↦ none
  ]
  | no _ ↦ none
]
  where
    go :
        client < r.next
        → listens (r.sessions client) ≡ true
        → (o : Outcome Heard) → get_message (negsuc 0) (pos 1) (some bytes) ≡ o
        → Next r
    go below waits (ok heard) e = some (_, Step.listen client (pos 1) (some bytes) below waits e)
    go below waits _ e = none

next : (r : Room) → Move → Next r
unfolding main_next goes_next hears_next Next
next r arrives = main_next r r.main refl
next r (goes client) = goes_next r client
next r (hears client bytes) = hears_next r client bytes

step : Run → Move → Run
unfolding next Next
step r move = elim (next r.last move) [
  | some (s, taken) ↦ record { last = s; reach = later r.reach taken }
  | none ↦ r
]

pub moves : Run → List Move → Run
unfolding step
moves r [] = r
moves r (m ∷ ms) = moves (step r m) ms

abbrev opened : Run
opened = record { last = init; reach = start }

abbrev a_client : List Move
a_client = arrives ∷ arrives ∷ arrives ∷ arrives ∷ arrives ∷ []

-- The thread goes on until it waits for a message or has come to an end.
abbrev goes_on : ℕ → List Move
goes_on client = replicate 12 (goes client)

-- A client that has sent its name and been registered, or not.
abbrev joins : ℕ → Bytes → List Move
joins client name = goes client ∷ hears client name ∷ goes_on client

-- Two clients with two names, and the first has said something.
unfoldable pub talk : Run
unfolding moves proceed hear get_message try_register register_client unregister_client take_name
    answer announce tell send_message close lookup insert erase next_user before same_string is_list
    is_bye ◌+ℤ◌ ◌-ℤ◌ receive c_string dec_lt
talk = moves opened (
    a_client
    ++ (joins 0 (codes "a") ++ (a_client ++ (joins 1 (codes "b") ++ (hears 0 (codes "hi") ∷ [])))))

-- Two clients with one name: the second leaves at once.
unfoldable pub clash : Run
unfolding moves proceed hear get_message try_register register_client unregister_client take_name
    answer announce tell send_message close lookup insert erase next_user before same_string is_list
    is_bye ◌+ℤ◌ ◌-ℤ◌ receive c_string dec_lt
clash =
    moves opened (a_client ++ (joins 0 (codes "a") ++ (a_client ++ (joins 1 (codes "a") ++ []))))

-- Two clients with one name: each passes the test before the other is inserted.
unfoldable pub twins : Run
unfolding moves proceed hear get_message try_register register_client unregister_client take_name
    answer announce tell send_message close lookup insert erase next_user before same_string is_list
    is_bye ◌+ℤ◌ ◌-ℤ◌ receive c_string dec_lt
twins = moves opened (
    a_client
    ++ (a_client
        ++ (goes 0
            ∷ goes 1
            ∷ hears 0 (codes "a")
            ∷ hears 1 (codes "a")
            ∷ goes 0
            ∷ goes 1
            ∷ goes 0
            ∷ goes 1
            ∷ goes 0
            ∷ goes 1
            ∷ [])))

pub twins_online :
    ((twins.last.sessions 0).is_online ≡ true)
    × ((twins.last.sessions 1).is_online ≡ true)
    × (twins.last.users ≡ (codes "a", 1) ∷ [])
unfolding twins
twins_online = (refl, refl, refl)

talk_users : talk.last.users ≡ (codes "a", 0) ∷ (codes "b", 1) ∷ []
unfolding talk
talk_users = refl

clash_sessions :
    (has_ended (clash.last.sessions 1).phase ≡ true)
    × ((clash.last.sessions 1).closes ≡ 2)
    × (clash.last.live ≡ pos 0)
unfolding clash
clash_sessions = (refl, refl, refl)
