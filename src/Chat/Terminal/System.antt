-- ===== src/Chat/Terminal/System.antt =====
-- `main` of hw/client.cpp with its two threads, in any interleaving. A step is a round of a thread's loop, or
-- a call of `main`; when `main` has returned, the process and its threads are gone. Each thread gets a pointer
-- to the parameter of the function that starts it: reading it when this function has returned is undefined
-- behaviour, from which `main` does not come back here.
pub mod Phases
pub mod Talk
pub mod Laws
use pc_project_2024_mtr.Prelude.{
  ℕ, suc, ◌≡◌, ◌≢◌, Bool, true, false, List, [], ◌∷◌, ◌++◌, Option, some, none, ok,
}
use pc_project_2024_mtr.Prelude.Text.{Bytes}
use pc_project_2024_mtr.Chat.Message.{c_string, buffer_of}
use pc_project_2024_mtr.Chat.Terminal.{Named, set_user_name, read_and_sanitize_user_input}

-- Where `main` stands, behind its connection.
pub data Main : Type 0 where
  naming : Main  -- at `set_user_name`
  starting_incoming : Main  -- at `pthread_create` in `setup_incoming_message_listener`
  leaving_incoming : Main  -- behind it, in that function
  starting_outgoing : Main  -- at `pthread_create` in `setup_outgoing_message_listener`
  leaving_outgoing : Main  -- behind it, in that function
  waiting : Main  -- at the loop that keeps the process alive
  ended : Main
  undefined : Main  -- a thread has read a parameter of a function that had returned

-- Where a thread stands.
pub data Listener : Type 0 where
  unborn : Listener
  born : Listener  -- at `*(int *)socket_ptr`
  running : Listener  -- in its loop
  done : Listener

-- `reads` are the results that `read` still gives on the socket, where no byte is a `read` that fails;
-- `input` is what is left on standard input. `printed` and `sent` are in order.
pub record Client : Type 0 where
  pub main : Main
  pub chat_active : Bool
  pub incoming : Listener
  pub outgoing : Listener
  pub reads : List Bytes
  pub input : Bytes
  pub printed : List Bytes
  pub sent : List Bytes

pub data Step (c : Client) : Client → Type 0 where
  name :
      {read : Bytes} {reads : List Bytes} {named : Named}
      → c.main ≡ naming
      → c.reads ≡ read ∷ reads
      → set_user_name (some read) c.input ≡ ok named
      → Step c (record c {
        main = starting_incoming;
        reads = reads;
        input = named.input;
        printed = named.printed ∷ [];
        sent = named.sent ∷ [];
      })
  start_incoming :
      c.main ≡ starting_incoming → Step c (record c { main = leaving_incoming; incoming = born })
  leave_incoming : c.main ≡ leaving_incoming → Step c (record c { main = starting_outgoing })
  start_outgoing :
      c.main ≡ starting_outgoing → Step c (record c { main = leaving_outgoing; outgoing = born })
  leave_outgoing : c.main ≡ leaving_outgoing → Step c (record c { main = waiting })
  enter_incoming :
      c.main ≡ leaving_incoming → c.incoming ≡ born → Step c (record c { incoming = running })
  enter_incoming_late :
      c.main ≢ leaving_incoming
      → c.main ≢ ended
      → c.incoming ≡ born
      → Step c (record c { main = undefined })
  enter_outgoing :
      c.main ≡ leaving_outgoing → c.outgoing ≡ born → Step c (record c { outgoing = running })
  enter_outgoing_late :
      c.main ≢ leaving_outgoing
      → c.main ≢ ended
      → c.outgoing ≡ born
      → Step c (record c { main = undefined })
  hear :
      {byte : ℕ} {bytes text : Bytes} {reads : List Bytes}
      → c.main ≢ ended
      → c.incoming ≡ running
      → c.chat_active ≡ true
      → c.reads ≡ (byte ∷ bytes) ∷ reads
      → c_string (buffer_of (byte ∷ bytes)) ≡ some text
      → Step c (record c { reads = reads; printed = c.printed ++ (text ∷ []) })
  set_close_chat :
      {reads : List Bytes}
      → c.main ≢ ended
      → c.incoming ≡ running
      → c.chat_active ≡ true
      → c.reads ≡ [] ∷ reads
      → Step c (record c { reads = reads; chat_active = false; incoming = done })
  say :
      {message rest : Bytes}
      → c.main ≢ ended
      → c.outgoing ≡ running
      → read_and_sanitize_user_input [] c.input ≡ ok (message, rest)
      → Step c (record c { input = rest; sent = c.sent ++ (message ∷ []) })
  finish : c.main ≡ waiting → c.chat_active ≡ false → Step c (record c { main = ended })

-- Behind `connect_to_server`.
abbrev pub connected : List Bytes → Bytes → Client
connected reads input = record {
  main = naming;
  chat_active = true;
  incoming = unborn;
  outgoing = unborn;
  reads = reads;
  input = input;
  printed = [];
  sent = [];
}

pub data Reach (reads : List Bytes) (input : Bytes) : Client → Type 0 where
  start : Reach reads input (connected reads input)
  later : {c d : Client} → Reach reads input c → Step c d → Reach reads input d
