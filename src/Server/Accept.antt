-- ===== src/Server/Accept.antt =====
-- The loop of `main` of task3/server.c that accepts clients, with the threads of its handlers beside it,
-- in any interleaving. A step is a critical section of `live_handlers_count_mutex` or a call between two
-- of them; a thread that would wait has no step.
pub mod Limit
use pc_project_2024_mtr.Prelude.{ℕ, suc, ◌<◌, ◌≡◌, Bool, true, false}

abbrev pub max_concurrent_clients : ℕ
max_concurrent_clients = 16

-- Where `main` stands.
pub data Main : Type 0 where
  testing : Main  -- at the loop's test
  checking : Main  -- at the wait for a free place
  allocating : Main  -- behind it, at `malloc`
  accepting : Main  -- at `accept`
  counting : Main  -- has a client, at `++live_handlers_count`
  spawning : Main  -- at `pthread_create`
  ended : Main  -- behind the loop

-- `live` is `live_handlers_count`. `serving` handlers have not yet decremented it, and `closing` ones
-- have still to free their argument; `arguments` counts the arguments that are allocated, and `failed`
-- the calls of `pthread_create` that made no thread.
pub record Server : Type 0 where
  pub stop : Bool
  pub main : Main
  pub live : ℕ
  pub serving : ℕ
  pub closing : ℕ
  pub arguments : ℕ
  pub failed : ℕ

pub data Accept (s : Server) : Server → Type 0 where
  interrupt : Accept s (record s { stop = true })
  enter : s.main ≡ testing → s.stop ≡ false → Accept s (record s { main = checking })
  leave : s.main ≡ testing → s.stop ≡ true → Accept s (record s { main = ended })
  find_place :
      s.main ≡ checking
      → s.live < max_concurrent_clients
      → Accept s (record s { main = allocating })
  allocate :
      s.main ≡ allocating → Accept s (record s { main = accepting; arguments = suc s.arguments })
  connect : s.main ≡ accepting → s.stop ≡ false → Accept s (record s { main = counting })
  refuse :
      {arguments : ℕ}
      → s.main ≡ accepting
      → s.stop ≡ false
      → s.arguments ≡ suc arguments
      → Accept s (record s { main = testing; arguments = arguments })
  break : s.main ≡ accepting → s.stop ≡ true → Accept s (record s { main = ended })
  count : s.main ≡ counting → Accept s (record s { main = spawning; live = suc s.live })
  spawn : s.main ≡ spawning → Accept s (record s { main = testing; serving = suc s.serving })
  fail : s.main ≡ spawning → Accept s (record s { main = testing; failed = suc s.failed })
  finish :
      {live serving : ℕ}
      → s.live ≡ suc live
      → s.serving ≡ suc serving
      → Accept s (record s { live = live; serving = serving; closing = suc s.closing })
  release :
      {closing arguments : ℕ}
      → s.closing ≡ suc closing
      → s.arguments ≡ suc arguments
      → Accept s (record s { closing = closing; arguments = arguments })

abbrev pub listening : Server
listening = record {
  stop = false;
  main = testing;
  live = 0;
  serving = 0;
  closing = 0;
  arguments = 0;
  failed = 0;
}

pub data Reach : Server → Type 0 where
  start : Reach listening
  later : {s t : Server} → Reach s → Accept s t → Reach t
