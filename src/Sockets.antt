-- ===== src/Sockets.antt =====
-- The calls by which the servers and clients of task3 and hw open their sockets. What the system answers is
-- a parameter.
pub mod Trial
pub mod Defaults
use pc_project_2024_mtr.Prelude.{
  ℕ, ◌-◌, ◌*◌, ◌%◌, ◌^◌, ◌≡◌, ◌||◌, Bool, true, false, List, ◌==◌, if◌then◌else◌, Outcome, ok, exit,
  ◌>>=◌, Error,
}
use pc_project_2024_mtr.Prelude.Int.{ℤ, pos, negsuc, ◌*ℤ◌}

-- `htons` of an `int`: the port that is bound or connected to.
unfoldable pub port_number : ℤ → ℕ
port_number (pos n) = n % 2 ^ 16
port_number (negsuc n) = 2 ^ 16 - 1 - n % 2 ^ 16

-- Where a server listens: at 127.0.0.1, or at any address of the machine.
pub data Address : Type 0 where
  localhost any_address : Address

pub record Listener : Type 0 where
  pub address : Address
  pub port : ℕ
  pub backlog : ℤ

-- Whether `socket`, `bind` and `listen` succeed.
pub record Answers : Type 0 where
  pub has_socket : Bool
  pub binds : Address → ℕ → Bool
  pub listens : ℤ → Bool

-- `main` of task3/server.c, from `socket` to `listen`.
unfoldable pub open_song_server : Answers → ℤ → Outcome Listener
unfolding port_number
open_song_server answers port =
    if answers.has_socket
    then if answers.binds localhost (port_number port)
      then if answers.listens (pos 32)
        then ok (record { address = localhost; port = port_number port; backlog = pos 32 })
        else exit Error.not_listening
      else exit Error.not_bound
    else exit Error.no_socket

-- `init` of hw/server.cpp: the address and port that `bind` is called with.
unfoldable pub init : Answers → ℤ → Outcome (Address × ℕ)
unfolding port_number
init answers port =
    if answers.has_socket then ok (localhost, port_number port) else exit Error.no_socket

-- `bind` and `listen_` of hw/server.cpp.
unfoldable pub bind : Answers → Address → ℕ → Outcome (Unit {0})
bind answers address port = if answers.binds address port then ok tt else exit Error.not_bound

unfoldable pub listen : Answers → ℤ → Outcome (Unit {0})
listen answers backlog = if answers.listens backlog then ok tt else exit Error.not_listening

-- `main` of hw/server.cpp, up to the loop, from the options on.
unfoldable pub open_chat_server : Answers → ℤ → ℤ → Outcome Listener
unfolding init bind listen
open_chat_server answers port max_concurrent_clients = do
  (address, number) ← init answers port
  _ ← bind answers address number
  _ ← listen answers (max_concurrent_clients *ℤ pos 2)
  ok (record { address = address; port = number; backlog = max_concurrent_clients *ℤ pos 2 })

-- `create_socket` and `connect_to_server` of hw/client.cpp. `connects` tells whether 127.0.0.1 accepts a
-- connection at a port; the port is the answer, for the connection that is made.
unfoldable pub create_socket : Bool → Outcome (Unit {0})
create_socket has_socket = if has_socket then ok tt else exit Error.no_socket

unfoldable pub connect_to_server : (ℕ → Bool) → ℤ → Outcome ℕ
unfolding port_number
connect_to_server connects port =
    if connects (port_number port) then ok (port_number port) else exit Error.not_connected

-- A server that listens at 127.0.0.1, or everywhere, is what a client of that machine reaches at its port.
abbrev pub reaches : Listener → ℕ → Bool
reaches listener port = listener.port == port
