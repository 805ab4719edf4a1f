-- ===== src/Chat/Room/Members.antt =====
-- Who is in the chat room of hw/server.cpp, and who hears what.
use pc_project_2024_mtr.Prelude.{
  ℕ, ◌≤◌, ◌≡◌, ◌⊎◌, refl, sym, ap, true, false, Option, some, ◌==◌, if◌then◌else◌, length, arith,
  ok,
}
use pc_project_2024_mtr.Prelude.Int.{ℤ, pos_part}
use pc_project_2024_mtr.Prelude.Text.{Bytes}
use pc_project_2024_mtr.Chat.Users.{lookup}
use pc_project_2024_mtr.Chat.Users.Broadcast.{}
use pc_project_2024_mtr.Chat.Message.{Heard, get_message}
use pc_project_2024_mtr.Chat.Message.Laws.{get_message-timed_out}
use pc_project_2024_mtr.Chat.Settings.{Options}
use pc_project_2024_mtr.Chat.Handler.{Phase, returned, Turn, take_name, has_ended}
use pc_project_2024_mtr.Chat.Handler.Turns.{on, may_be_online}
use pc_project_2024_mtr.Chat.Room.{Room, Reach}
use pc_project_2024_mtr.Chat.Room.Register.{IsRegister, Rival}
use pc_project_2024_mtr.Chat.Room.Invariant.{Reach-Inv}

-- A thread whose client may be online has not come to an end.
lives : (p : Phase) → 1 ≤ may_be_online p → has_ended p ≡ false
lives p h = ground arith

module _ (options : Options) (h : 1 ≤ pos_part options.max_concurrent_clients) (r : Room)
    (reach : Reach options r) where
  register : IsRegister r.users r.sessions r.next
  register = (Reach-Inv h reach).register

  -- In `users` stand only clients that are online, each under its name, and their threads still run, so none
  -- of the pointers in it is to a deleted client.
  pub lookup-online :
      (name : Bytes) (client : ℕ)
      → lookup name r.users ≡ some client
      → ((r.sessions client).is_online ≡ true)
        × ((r.sessions client).name ≡ name)
        × (has_ended (r.sessions client).phase ≡ false)
  lookup-online name client found =
      let (online, e, below) = register.only name client found in
      (
        online,
        sym e,
        lives (r.sessions client).phase (omega (arith, (register.each client).may, ap on online)),
      )

  -- A client that is online stands in `users` under its name, unless another client has been registered under
  -- this name too: the test and the insertion of `register_client` are two steps.
  pub online-listed :
      (client : ℕ)
      → (r.sessions client).is_online ≡ true
      → (lookup (r.sessions client).name r.users ≡ some client)
        ⊎ Rival r.sessions r.next client (r.sessions client).name
  online-listed client online = register.listed client online

  -- When its thread has come to an end a client has been closed once, but twice if its name was taken.
  pub closes_lem :
      (client : ℕ)
      → has_ended (r.sessions client).phase ≡ true
      → (r.sessions client).closes ≡ (if (r.sessions client).rejected then 2 else 1)
  closes_lem client e = ground (arith, (register.each client).closed, e)

-- A client that times out before it has sent its name is sent no notice of it, and its thread returns
-- without deleting it.
pub timed_out_name :
    (timeout ready : ℤ) (bytes : Option Bytes) (heard : Heard) (client : ℕ) (t : Turn)
    → get_message timeout ready bytes ≡ ok heard
    → heard.timed_out ≡ true
    → ((take_name client heard t).sent ≡ t.sent)
      × ((take_name client heard t).session.phase ≡ returned)
unfolding take_name
timed_out_name timeout ready bytes heard client t e late =
    let empty : (length heard.text == 0) ≡ true =
      ap (λ s. length s == 0) (get_message-timed_out timeout ready bytes heard e late) in
    rw (empty, take_name) (refl, refl)
