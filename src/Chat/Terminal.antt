-- ===== src/Chat/Terminal.antt =====
-- hw/client.cpp: the terminal client of the chat room. Standard input is the list of its bytes that are
-- left, and a buffer is the C string in it. What `read` gives is a parameter, as for the server.
pub mod Lines
pub mod Naming
pub mod System
use pc_project_2024_mtr.Prelude.{
  ℕ, zero, suc, ◌-◌, ◌≡◌, List, [], ◌∷◌, ◌++◌, Option, none, some, ◌==◌, if◌then◌else◌, Outcome, ok,
  exit, fault, ◌>>=◌, or_fault, Error,
}
use pc_project_2024_mtr.Prelude.Text.{Bytes}
use pc_project_2024_mtr.Chat.Message.{buffer_size, c_string, buffer_of}

abbrev pub newline : ℕ
newline = 10

-- A line of at most so many bytes, its newline included, and the input behind it.
unfoldable pub read_line : ℕ → Bytes → Bytes × Bytes
read_line zero input = ([], input)
read_line (suc n) [] = ([], [])
read_line (suc n) (byte ∷ input) =
    let (line, rest) = read_line n input in
    if byte == newline then (byte ∷ [], input) else (byte ∷ line, rest)

-- The string that a terminator behind these bytes makes of them: it ends at the first NUL.
unfoldable pub terminated : Bytes → Bytes
terminated [] = []
terminated (byte ∷ bytes) = let rest = terminated bytes in if byte == 0 then [] else byte ∷ rest

-- `fgets(buffer, BUFFER_SIZE, stdin)`: at the end of the input the buffer stays.
unfoldable pub fgets : Bytes → Bytes → Bytes × Bytes
unfolding read_line terminated
fgets buffer [] = (buffer, [])
fgets buffer (byte ∷ input) =
    let (line, rest) = read_line (buffer_size - 1) (byte ∷ input) in (terminated line, rest)

-- `remove_trailing_new_line`: the last byte is dropped, whatever it is. That of an empty string stands
-- before the array.
unfoldable pub remove_trailing_new_line : Bytes → Outcome Bytes
remove_trailing_new_line [] = fault
remove_trailing_new_line (byte ∷ []) = ok []
remove_trailing_new_line (byte ∷ next ∷ string) = do
  rest ← remove_trailing_new_line (next ∷ string)
  ok (byte ∷ rest)

-- `read_and_sanitize_user_input`. `strlen` is never negative, so the loop has one round.
unfoldable pub read_and_sanitize_user_input : Bytes → Bytes → Outcome (Bytes × Bytes)
unfolding fgets remove_trailing_new_line
read_and_sanitize_user_input buffer input = do
  let read = fgets buffer input
  line ← remove_trailing_new_line read.0
  ok (line, read.1)

-- `set_user_name`: what is printed, what is sent, and the input that is left.
pub record Named : Type 0 where
  pub printed : Bytes
  pub sent : Bytes
  pub input : Bytes

unfoldable pub set_user_name : Option Bytes → Bytes → Outcome Named
unfolding c_string read_and_sanitize_user_input
set_user_name none input = exit Error.socket_closed
set_user_name (some []) input = exit Error.socket_closed
set_user_name (some (byte ∷ bytes)) input = do
  printed ← or_fault (c_string (buffer_of (byte ∷ bytes)))
  (sent, rest) ← read_and_sanitize_user_input [] input
  ok (record { printed = printed; sent = sent; input = rest })

-- `handle_outgoing_message`: the messages of its first rounds.
unfoldable pub outgoing : ℕ → Bytes → Outcome (List Bytes)
unfolding read_and_sanitize_user_input
outgoing zero input = ok []
outgoing (suc rounds) input = do
  (message, rest) ← read_and_sanitize_user_input [] input
  messages ← outgoing rounds rest
  ok (message ∷ messages)

-- `handle_incoming_message`: what is printed until `read` gives nothing. An empty list is a `read` that
-- fails.
unfoldable pub incoming : List Bytes → Outcome (List Bytes)
unfolding c_string
incoming [] = ok []
incoming ([] ∷ reads) = ok []
incoming ((byte ∷ bytes) ∷ reads) = do
  printed ← or_fault (c_string (buffer_of (byte ∷ bytes)))
  rest ← incoming reads
  ok (printed ∷ rest)
