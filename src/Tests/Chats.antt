-- ===== src/Tests/Chats.antt =====
-- The theorems on the chat room, at concrete inputs.
use pc_project_2024_mtr.Prelude.{
  suc, ◌⊎◌, ◌+◌, ◌≤◌, ◌≡◌, refl, true, false, List, [], ◌∷◌, ◌++◌, none, some, length, arith, ok,
  fault, ◌==◌, if◌then◌else◌, replicate,
}
use pc_project_2024_mtr.Prelude.Int.{pos, negsuc}
use pc_project_2024_mtr.Prelude.Text.{Bytes, codes, same_string}
use pc_project_2024_mtr.Prelude.Family.{total}
use pc_project_2024_mtr.Chat.Users.{lookup}
use pc_project_2024_mtr.Chat.Users.Broadcast.{received, is_user}
use pc_project_2024_mtr.Chat.Message.{Heard, get_message, buffer_size}
use pc_project_2024_mtr.Chat.Message.Laws.{get_message_lem}
use pc_project_2024_mtr.Chat.Handler.{
  looping, has_ended, said, take_name, returned, registering, is_list, is_bye,
}
use pc_project_2024_mtr.Chat.Room.{turn_of, init}
use pc_project_2024_mtr.Chat.Room.Register.{Rival}
use pc_project_2024_mtr.Chat.Room.Telling.{continues, said-received}
use pc_project_2024_mtr.Chat.Room.Invariant.{counted}
use pc_project_2024_mtr.Chat.Room.Members.{lookup-online, online-listed, closes_lem, timed_out_name}
use pc_project_2024_mtr.Chat.Room.Places.{runs, refused, runs-bound}
use pc_project_2024_mtr.Chat.Terminal.{
  Named, newline, set_user_name, read_and_sanitize_user_input, outgoing,
}
use pc_project_2024_mtr.Chat.Terminal.Lines.{typed, sanitize_long, outgoing-end}
use pc_project_2024_mtr.Chat.Terminal.Naming.{name-arrives}
use pc_project_2024_mtr.Tests.Rooms.{two_places, talk, clash, twins, twins_online}

lookup-online_example :
    ((talk.last.sessions 1).is_online ≡ true)
    × ((talk.last.sessions 1).name ≡ codes "b")
    × (has_ended (talk.last.sessions 1).phase ≡ false)
unfolding talk lookup same_string
lookup-online_example =
    lookup-online two_places (omega arith) talk.last talk.reach (codes "b") 1 refl

-- The first of two clients that have been registered under one name is not in `users` any more.
online-listed_example :
    (lookup (twins.last.sessions 0).name twins.last.users ≡ some 0)
    ⊎ Rival twins.last.sessions twins.last.next 0 (twins.last.sessions 0).name
online-listed_example =
    online-listed two_places (omega arith) twins.last twins.reach 0 twins_online.0

abbrev hi : Heard
hi = record { text = codes "hi"; timed_out = false }

said-received_example :
    ((continues (suc (suc (length talk.last.users))) 0 (turn_of talk.last 0)).session.phase
      ≡ looping)
    × (received 1 (continues (suc (suc (length talk.last.users))) 0 (turn_of talk.last 0)).sent
        ≡ received 1 talk.last.sent
          ++ (if 1 == 0
              then []
              else if is_user 1 (lookup (talk.last.sessions 1).name talk.last.users)
              then said (talk.last.sessions 0).name hi.text ∷ []
              else []))
unfolding is_list is_bye talk
said-received_example =
    said-received two_places (omega arith) talk.last talk.reach 0 hi refl refl refl refl refl 1

closes_lem_example :
    (clash.last.sessions 1).closes ≡ (if (clash.last.sessions 1).rejected then 2 else 1)
unfolding clash
closes_lem_example = closes_lem two_places (omega arith) clash.last clash.reach 1 refl

runs-bound_example :
    total runs clash.last.next clash.last.sessions + counted clash.last.main + 0
    ≤ 2 + total refused clash.last.next clash.last.sessions
runs-bound_example = runs-bound two_places (omega arith) clash.last clash.reach

timed_out_name_example :
    ((take_name 0 (record { text = []; timed_out = true }) (turn_of init 0)).sent ≡ [])
    × ((take_name 0 (record { text = []; timed_out = true }) (turn_of init 0)).session.phase
        ≡ returned)
unfolding get_message
timed_out_name_example =
    timed_out_name (pos 5) (pos 0) none (record { text = []; timed_out = true }) 0 (turn_of init 0)
      refl refl

get_message_lem_example : get_message (negsuc 0) (pos 0) (some (codes "hi")) ≡ (
    if length (codes "hi") == buffer_size
    then fault
    else ok (record { text = codes "hi"; timed_out = false }))
get_message_lem_example =
    get_message_lem (negsuc 0) (pos 0) (codes "hi") refl (omega arith) (omega arith) (omega arith)

sanitize_long_example :
    read_and_sanitize_user_input [] (replicate 1022 97 ++ (98 ∷ 99 ∷ newline ∷ []))
    ≡ ok (replicate 1022 97, 99 ∷ newline ∷ [])
sanitize_long_example =
    sanitize_long [] (replicate 1022 97) (99 ∷ newline ∷ []) 98 (omega arith) (omega arith)
      (omega arith) (omega arith) refl

abbrev two_lines : List Bytes
two_lines = codes "hi" ∷ codes "" ∷ []

outgoing-end_example : outgoing 3 (typed two_lines []) ≡ fault
outgoing-end_example = outgoing-end two_lines 3 (omega arith) (omega arith)

name-arrives_example :
    (n : Named) × (heard : Heard) × (set_user_name
        (some (codes "hello"))
        (codes "eve" ++ (newline ∷ []))
      ≡ ok n)
    × (get_message (negsuc 0) (pos 0) (some n.sent) ≡ ok heard)
    × ((take_name 0 heard (turn_of init 0)).session.name ≡ codes "eve")
    × ((take_name 0 heard (turn_of init 0)).session.phase ≡ registering)
name-arrives_example =
    name-arrives (codes "hello") (codes "eve") [] (negsuc 0) (pos 0) 0 (turn_of init 0)
      (omega arith) (omega arith) (omega arith) refl
