-- ===== src/Chat/Room.antt =====
-- The server of hw/server.cpp: `main`, which accepts clients, and the threads of the clients, in any
-- interleaving. The last loop of `main`, which closes the clients of the users, is not part of it.
pub mod Register
pub mod Invariant
pub mod Members
pub mod Telling
pub mod Places
use pc_project_2024_mtr.Prelude.{
  ℕ, suc, ◌<◌, ◌≡◌, Bool, true, false, ◌||◌, List, [], ◌∷◌, Option, none, some, Outcome, ok,
  if◌then◌else◌,
}
use pc_project_2024_mtr.Prelude.Int.{ℤ, pos, ◌+ℤ◌, ◌-ℤ◌, ltb_ℤ}
use pc_project_2024_mtr.Prelude.Text.{Bytes}
use pc_project_2024_mtr.Prelude.Family.{assign}
use pc_project_2024_mtr.Chat.Users.{Users}
use pc_project_2024_mtr.Chat.Message.{Heard, get_message}
use pc_project_2024_mtr.Chat.Settings.{Options}
use pc_project_2024_mtr.Chat.Handler.{
  Phase, Session, connected, Turn, proceed, listens, hear, has_ended,
}

-- Where `main` stands.
pub data Main : Type 0 where
  testing : Main  -- at the loop's test
  checking : Main  -- at `wait_till_can_accept` and the test behind it
  accepting : Main  -- behind them, at `accept`
  counting : Main  -- has a client, at `live_users++`
  spawning : Main  -- at the last test of `running`
  stopping : Main  -- behind the loop

-- `sessions` are the clients that have a thread, by their number, and `next` how many there have been.
pub record Room : Type 0 where
  pub running : Bool
  pub main : Main
  pub live : ℤ
  pub users : Users
  pub sessions : ℕ → Session
  pub next : ℕ
  pub sent : List (ℕ × Bytes)

-- What the thread of a client works on, and the room behind its step.
abbrev pub turn_of : Room → ℕ → Turn
turn_of r client = record {
  session = r.sessions client;
  users = r.users;
  live = r.live;
  sent = r.sent;
}

abbrev pub store_turn : Room → ℕ → Turn → Room
store_turn r client t = record r {
  live = t.live;
  users = t.users;
  sessions = assign r.sessions client t.session;
  sent = t.sent;
}

-- What `wait_till_can_accept` waits for.
abbrev pub can_accept : Options → Room → Bool
can_accept options r = if r.running then ltb_ℤ r.live options.max_concurrent_clients else true

-- `handle_sig`, which also wakes `main` from its wait and from `accept`.
abbrev pub handle_sig : Room → Room
handle_sig r = record r { running = false }

-- A step of `main`, of a client's thread, or the signal.
pub data Step (options : Options) (r : Room) : Room → Type 0 where
  interrupt : Step options r (handle_sig r)
  enter : r.main ≡ testing → r.running ≡ true → Step options r (record r { main = checking })
  leave : r.main ≡ testing → r.running ≡ false → Step options r (record r { main = stopping })
  find_place :
      r.main ≡ checking
      → r.running ≡ true
      → can_accept options r ≡ true
      → Step options r (record r { main = accepting })
  give_up : r.main ≡ checking → r.running ≡ false → Step options r (record r { main = stopping })
  connect : r.main ≡ accepting → Step options r (record r { main = counting })
  refuse : r.main ≡ accepting → Step options r (record r { main = testing })
  count : r.main ≡ counting → Step options r (record r { main = spawning; live = r.live +ℤ pos 1 })
  spawn :
      r.main ≡ spawning
      → r.running ≡ true
      → Step options r (record r {
        main = testing;
        sessions = assign r.sessions r.next connected;
        next = suc r.next;
      })
  drop_last :
      r.main ≡ spawning
      → r.running ≡ false
      → Step options r (record r { main = stopping; live = r.live -ℤ pos 1 })
  listen :
      (client : ℕ) (ready : ℤ) (received : Option Bytes) {heard : Heard}
      → client < r.next
      → listens (r.sessions client) ≡ true
      → get_message options.timeout ready received ≡ ok heard
      → Step options r
          (record r { sessions = assign r.sessions client (hear heard (r.sessions client)) })
  handle :
      (client : ℕ)
      → client < r.next
      → listens (r.sessions client) ≡ false
      → has_ended (r.sessions client).phase ≡ false
      → Step options r
          (store_turn r client (proceed client (r.sessions client).phase (turn_of r client)))

abbrev pub init : Room
init = record {
  running = true;
  main = testing;
  live = pos 0;
  users = [];
  sessions = λ _. connected;
  next = 0;
  sent = [];
}

pub data Reach (options : Options) : Room → Type 0 where
  start : Reach options init
  later : {r s : Room} → Reach options r → Step options r s → Reach options s
