-- ===== src/Chat/Terminal/Lines.antt =====
-- The lines typed at the client of hw/client.cpp, the messages that it sends for them, and those that it
-- prints.
use pc_project_2024_mtr.Prelude.{
  ℕ, zero, suc, ◌+◌, ◌-◌, ◌<◌, ◌≡◌, ◌≢◌, refl, sym, ap, ◌∙◌, List, [], ◌∷◌, ◌++◌, length,
  length-append, ok, fault, arith, append_assoc,
}
use pc_project_2024_mtr.Prelude.Text.{Bytes}
use pc_project_2024_mtr.Chat.Message.{buffer_size}
use pc_project_2024_mtr.Chat.Message.Laws.{NoNul, c_string-append}
use pc_project_2024_mtr.Chat.Terminal.{
  newline, read_line, terminated, fgets, remove_trailing_new_line, read_and_sanitize_user_input,
  outgoing, incoming,
}

abbrev pub NoNewline : Bytes → Type 0
NoNewline [] = Unit
NoNewline (byte ∷ line) = (byte ≢ newline) × NoNewline line

-- A line of text that fits in the buffer with its newline and terminator.
abbrev pub IsLine : Bytes → Type 0
IsLine line = NoNewline line × NoNul line × (length line + 1 < buffer_size)

NoNewline-append :
    (line : Bytes) (byte : ℕ) → NoNewline line → byte ≢ newline → NoNewline (line ++ (byte ∷ []))
NoNewline-append [] byte c ne = (ne, tt)
NoNewline-append (first ∷ line) byte c ne = (c.0, NoNewline-append line byte c.1 ne)

terminated-append :
    (line : Bytes) (byte : ℕ)
    → NoNul line
    → byte ≢ 0
    → terminated (line ++ (byte ∷ [])) ≡ line ++ (byte ∷ [])
unfolding terminated
terminated-append [] byte c ne = ground arith
terminated-append (first ∷ line) byte c ne = ground (arith, terminated-append line byte c.1 ne)

read_line_lem :
    (n : ℕ) (line rest : Bytes)
    → NoNewline line
    → length line < n
    → read_line n (line ++ (newline ∷ rest)) ≡ (line ++ (newline ∷ []), rest)
unfolding read_line
read_line_lem zero line rest c h = absurd (omega arith)
read_line_lem (suc n) [] rest c h = refl
read_line_lem (suc n) (byte ∷ line) rest c h = ground (arith, read_line_lem n line rest c.1)

read_line_long :
    (n : ℕ) (line rest : Bytes)
    → NoNewline line
    → length line ≡ n
    → read_line n (line ++ rest) ≡ (line, rest)
unfolding read_line
read_line_long zero [] rest c h = refl
read_line_long zero (byte ∷ line) rest c h = absurd (omega arith)
read_line_long (suc n) [] rest c h = absurd (omega arith)
read_line_long (suc n) (byte ∷ line) rest c h = ground (arith, read_line_long n line rest c.1)

remove-append : (line : Bytes) (byte : ℕ) → remove_trailing_new_line (line ++ (byte ∷ [])) ≡ ok line
unfolding remove_trailing_new_line
remove-append [] byte = refl
remove-append (first ∷ []) byte = refl
remove-append (first ∷ next ∷ line) byte = rw (remove-append (next ∷ line) byte) refl

pub fgets_lem :
    (buffer line rest : Bytes)
    → IsLine line
    → fgets buffer (line ++ (newline ∷ rest)) ≡ (line ++ (newline ∷ []), rest)
unfolding fgets
fgets_lem buffer [] rest h = refl
fgets_lem buffer (byte ∷ line) rest h =
    rw
      (
        read_line_lem (buffer_size - 1) (byte ∷ line) rest h.0 (omega arith),
        terminated-append (byte ∷ line) newline h.1 (omega arith),
      )
      refl

-- A line that fits is read without its newline, whatever the buffer held.
pub sanitize_lem :
    (buffer line rest : Bytes)
    → IsLine line
    → read_and_sanitize_user_input buffer (line ++ (newline ∷ rest)) ≡ ok (line, rest)
unfolding read_and_sanitize_user_input
sanitize_lem buffer line rest h = rw (fgets_lem buffer line rest h, remove-append line newline) refl

fgets_long :
    (buffer line rest : Bytes) (byte : ℕ)
    → NoNewline line
    → NoNul line
    → byte ≢ newline
    → byte ≢ 0
    → length line + 2 ≡ buffer_size
    → fgets buffer (line ++ (byte ∷ rest)) ≡ (line ++ (byte ∷ []), rest)
unfolding fgets
fgets_long buffer [] rest byte c z ne nz h = absurd (omega arith)
fgets_long buffer (first ∷ line) rest byte c z ne nz h =
    let whole = NoNewline-append (first ∷ line) byte c ne in
    let size : length ((first ∷ line) ++ (byte ∷ [])) ≡ buffer_size - 1 =
      omega (arith, length-append (first ∷ line) (byte ∷ [])) in
    let read =
      ap (read_line (buffer_size - 1)) (sym (append_assoc (first ∷ line) (byte ∷ []) rest))
      ∙ read_line_long (buffer_size - 1) ((first ∷ line) ++ (byte ∷ [])) rest whole size in
    rw (read, terminated-append (first ∷ line) byte z nz) refl

-- Of a line that is longer the client takes one byte less than a buffer holds and drops the next one: the
-- message lacks it, and so does the message for the rest of the line. No byte up to there is NUL.
pub sanitize_long :
    (buffer line rest : Bytes) (byte : ℕ)
    → NoNewline line
    → NoNul line
    → byte ≢ newline
    → byte ≢ 0
    → length line + 2 ≡ buffer_size
    → read_and_sanitize_user_input buffer (line ++ (byte ∷ rest)) ≡ ok (line, rest)
unfolding read_and_sanitize_user_input
sanitize_long buffer line rest byte c z ne nz h =
    rw (fgets_long buffer line rest byte c z ne nz h, remove-append line byte) refl

-- The input that the lines are typed as, before `rest`.
abbrev pub typed : List Bytes → Bytes → Bytes
typed [] rest = rest
typed (line ∷ lines) rest = line ++ (newline ∷ typed lines rest)

abbrev pub AllLines : List Bytes → Type 0
AllLines [] = Unit
AllLines (line ∷ lines) = IsLine line × AllLines lines

-- The client sends each line that fits as one message without its newline, in order.
pub outgoing-typed :
    (lines : List Bytes) (rest : Bytes)
    → AllLines lines
    → outgoing (length lines) (typed lines rest) ≡ ok lines
unfolding outgoing
outgoing-typed [] rest h = refl
outgoing-typed (line ∷ lines) rest h =
    rw (sanitize_lem [] line (typed lines rest) h.0, outgoing-typed lines rest h.1) refl

-- When the input ends after some lines, the next round writes before the start of its buffer.
pub outgoing-end :
    (lines : List Bytes) (rounds : ℕ)
    → AllLines lines
    → length lines < rounds
    → outgoing rounds (typed lines []) ≡ fault
unfolding outgoing
outgoing-end lines zero h more = absurd (omega arith)
outgoing-end [] (suc rounds) h more = refl
outgoing-end (line ∷ lines) (suc rounds) h more =
    rw (sanitize_lem [] line (typed lines []) h.0, outgoing-end lines rounds h.1 (omega arith)) refl

abbrev pub IsMessage : Bytes → Type 0
IsMessage message = NoNul message × (0 < length message) × (length message < buffer_size)

abbrev pub AllMessages : List Bytes → Type 0
AllMessages [] = Unit
AllMessages (message ∷ messages) = IsMessage message × AllMessages messages

-- The client prints each message that arrives in a read of its own and leaves room in the buffer, in order,
-- until a read fails.
pub incoming_lem :
    (messages reads : List Bytes)
    → AllMessages messages
    → incoming (messages ++ ([] ∷ reads)) ≡ ok messages
unfolding incoming
incoming_lem [] reads h = refl
incoming_lem ([] ∷ messages) reads h = absurd (omega arith)
incoming_lem ((byte ∷ bytes) ∷ messages) reads h =
    rw
      (
        c_string-append (byte ∷ bytes) (buffer_size - length (byte ∷ bytes)) h.0.0 (omega arith),
        incoming_lem messages reads h.1,
      )
      refl
