-- ===== src/Chat/Handler.antt =====
-- `handle_client` of hw/server.cpp, step by step. `users` has no lock in the source: a step looks into the map
-- or changes it once, so that other threads come between the test and the insertion of `register_client`, and
-- between two rounds of the loop of `broadcast`.
-- `is_online` is read by the client's own thread only: its assignment goes with the change of the map. The loop
-- of `get_userlist` is one step. Where the entry that the loop of `broadcast` stands at has been erased, `tell`
-- goes on with the next name, which C++ does not promise.
pub mod Turns
pub mod Proceed
use pc_project_2024_mtr.Prelude.{
  ℕ, suc, ◌≡◌, Bool, true, false, ◌&&◌, List, [], ◌∷◌, ◌++◌, Option, none, some, ◌==◌,
  if◌then◌else◌, length,
}
use pc_project_2024_mtr.Prelude.Int.{ℤ, pos, ◌-ℤ◌}
use pc_project_2024_mtr.Prelude.Text.{Bytes, codes, same_string}
use pc_project_2024_mtr.Chat.Users.{Users, lookup, insert, erase, next_user, get_userlist}
use pc_project_2024_mtr.Chat.Message.{Heard}

-- What a broadcast is followed by.
pub data After : Type 0 where
  then_looping then_closing : After

-- Where a thread stands in `handle_client`.
pub data Phase : Type 0 where
  greeting : Phase  -- at the welcome
  naming : Phase  -- at `get_message` for the name
  named : Heard → Phase  -- behind it
  registering : Phase  -- at the test of `register_client`
  inserting : Phase  -- behind it, at the insertion
  joining : Phase  -- at the broadcast that the client has joined
  looping : Phase  -- at the loop's test, and at `get_message`
  hearing : Heard → Phase  -- behind `get_message` in the loop
  telling : Bytes → Option Bytes → After → Phase  -- in the loop of `broadcast`, behind the user of this name
  leaving : Phase  -- at the broadcast that the client has left
  closing : Phase  -- at the last `close_`
  returned : Phase  -- by an early return: the client is not deleted
  deleted : Phase  -- at the end

-- A `Client` and its thread. `closes` counts the calls of `close_`; `rejected` tells that `register_client`
-- has failed.
pub record Session : Type 0 where
  pub phase : Phase
  pub name : Bytes
  pub is_online : Bool
  pub rejected : Bool
  pub closes : ℕ

-- What `new Client()` and the start of the thread give.
abbrev pub connected : Session
connected = record { phase = greeting; name = []; is_online = false; rejected = false; closes = 0 }

-- What the steps of a thread change: its client, `users`, `live_users`, and the messages sent, oldest first.
pub record Turn : Type 0 where
  pub session : Session
  pub users : Users
  pub live : ℤ
  pub sent : List (ℕ × Bytes)

abbrev pub go_to : Phase → Turn → Turn
go_to phase t = record t { session = record t.session { phase = phase } }

-- `Client::send_message`
unfoldable pub send_message : ℕ → Bytes → Turn → Turn
send_message client message t = record t { sent = t.sent ++ ((client, message) ∷ []) }

-- `Client::close_`
unfoldable pub close : Turn → Turn
close t = record t {
  session = record t.session { closes = suc t.session.closes };
  live = t.live -ℤ pos 1;
}

-- `Server::register_client` behind its test.
unfoldable pub register_client : ℕ → Turn → Turn
register_client client t = record t {
  session = record t.session { is_online = true };
  users = insert t.session.name client t.users;
}

-- `Server::unregister_client`
unfoldable pub unregister_client : Turn → Turn
unregister_client t = record t {
  session = record t.session { is_online = false };
  users = erase t.session.name t.users;
}

-- `Server::broadcast` from its beginning on, and a round of its loop.
unfoldable pub announce : Bytes → After → Turn → Turn
announce message after t = go_to (telling message none after) t

abbrev pub phase_after : After → Phase
phase_after then_looping = looping
phase_after then_closing = closing

unfoldable pub tell : ℕ → Bytes → Option Bytes → After → Turn → Turn
unfolding send_message
tell client message last after t = elim (next_user last t.users) [
  | none ↦ go_to (phase_after after) t
  | some (name, other) ↦
      go_to (telling message (some name) after)
        (if other == client then t else send_message other message t)
]

pub list_users : Users → Bytes
list_users users = codes "<SERVER> Currently connected users are:" ++ get_userlist users

pub welcome : Users → Bytes
welcome users = codes "<SERVER> Welcome to the chatroom\n" ++ list_users users

pub timeout_notice : Bytes
timeout_notice = codes "<SERVER> Connection timed out"

pub has_joined : Bytes → Bytes
has_joined name = codes "<SERVER> Client " ++ (name ++ codes " has joined the chatroom")

pub has_left : Bytes → Bytes
has_left name = codes "<SERVER> Client " ++ (name ++ codes " has left the chatroom")

-- What other clients see of a message.
pub said : Bytes → Bytes → Bytes
said name message = codes "[" ++ (name ++ (codes "] " ++ message))

unfoldable pub is_list : Bytes → Bool
unfolding same_string
is_list = same_string (codes "\\list")

unfoldable pub is_bye : Bytes → Bool
unfolding same_string
is_bye = same_string (codes "\\bye")

-- The body of the loop, behind `get_message`.
unfoldable pub answer : ℕ → Heard → Turn → Turn
unfolding send_message unregister_client announce
answer client heard t =
    if heard.timed_out
    then go_to looping (unregister_client (send_message client timeout_notice t))
    else if length heard.text == 0
    then go_to looping (unregister_client t)
    else if is_list heard.text
    then go_to looping (send_message client (list_users t.users) t)
    else if is_bye heard.text
    then go_to looping (unregister_client t)
    else announce (said t.session.name heard.text) then_looping t

-- The tests of the name. An empty name comes first, so a timeout is taken for one.
unfoldable pub take_name : ℕ → Heard → Turn → Turn
unfolding send_message close
take_name client heard t =
    let t' = record t { session = record t.session { name = heard.text } } in
    if length heard.text == 0
    then go_to returned (close t')
    else if heard.timed_out
    then go_to returned (close (send_message client timeout_notice t'))
    else go_to registering t'

-- The test of `register_client`, and of its result; the branch of a name in use has no `return`.
unfoldable pub try_register : Turn → Turn
unfolding close
try_register t = elim (lookup t.session.name t.users) [
  | none ↦ go_to inserting t
  | some _ ↦ go_to joining (close (record t { session = record t.session { rejected = true } }))
]

-- One step of the thread of `client` that does not wait for a message.
unfoldable pub proceed : ℕ → Phase → Turn → Turn
unfolding send_message announce close answer take_name try_register register_client tell
proceed client greeting t = go_to naming (send_message client (welcome t.users) t)
proceed client naming t = t
proceed client (named heard) t = take_name client heard t
proceed client registering t = try_register t
proceed client inserting t = go_to joining (register_client client t)
proceed client joining t = announce (has_joined t.session.name) then_looping t
proceed client looping t = go_to leaving t
proceed client (hearing heard) t = answer client heard t
proceed client (telling message last after) t = tell client message last after t
proceed client leaving t = announce (has_left t.session.name) then_closing t
proceed client closing t = go_to deleted (close t)
proceed client returned t = t
proceed client deleted t = t

-- The thread waits for a message.
abbrev pub listens : Session → Bool
listens s = elim s.phase [ naming ↦ true | looping ↦ s.is_online | _ ↦ false ]

-- It gets one.
unfoldable pub hear : Heard → Session → Session
hear heard s = elim s.phase [
  | naming ↦ record s { phase = named heard }
  | looping ↦ record s { phase = hearing heard }
  | _ ↦ s
]

-- The thread has come to an end.
abbrev pub has_ended : Phase → Bool
has_ended returned = true
has_ended deleted = true
has_ended _ = false
