-- ===== src/Sockets/Trial.antt =====
-- task3/trial/app_server.c and app_client.c: a server that greets one client, and that client.
use pc_project_2024_mtr.Prelude.{
  ℕ, ◌-◌, ◌≤◌, ◌<◌, ◌≡◌, inl, inr, ap, ◌∙◌, sym, Bool, true, false, [], ◌∷◌, ◌++◌, Option, none,
  some, ltb, ◌==◌, ==_iff, subst, length-append, Bool-cases, lt→ltb, if◌then◌else◌, arith, length,
  replicate, Outcome, ok, exit, fault, or_fault, Error,
}
use pc_project_2024_mtr.Prelude.Int.{ℤ, pos}
use pc_project_2024_mtr.Prelude.Text.{Bytes, codes}
use pc_project_2024_mtr.Chat.Message.{buffer_size, c_string}
use pc_project_2024_mtr.Chat.Message.Laws.{NoNul, c_string-append}
use pc_project_2024_mtr.Sockets.{Answers, Listener, any_address, port_number, reaches}

abbrev pub trial_port : ℤ
trial_port = pos 8800

abbrev pub greeting : Bytes
greeting = codes "Hello World!"

-- `main` of app_server.c: what it sends to the client that `accept` gives. The result of `send` is not
-- looked at.
unfoldable pub serve_trial : Answers → Bool → Outcome (Listener × Bytes)
unfolding port_number
serve_trial answers accepts =
    if answers.has_socket
    then if answers.binds any_address (port_number trial_port)
      then if answers.listens (pos 5)
        then if accepts
          then ok (
            record { address = any_address; port = port_number trial_port; backlog = pos 5 },
            greeting,
          )
          else exit Error.not_accepted
        else exit Error.not_listening
      else exit Error.not_bound
    else exit Error.no_socket

-- `buffer[bytes_received] = '\0'`, for a buffer that starts with what `recv` gave. What stood in the buffer
-- behind it is not read: the string ends there at the latest.
unfoldable pub terminate : Bytes → Outcome Bytes
terminate bytes =
    if ltb (length bytes) buffer_size
    then or_fault (c_string (bytes ++ replicate (buffer_size - length bytes) 0))
    else fault

-- `main` of app_client.c: the text that it prints. `received` is what `recv` gives.
unfoldable pub run_trial_client : Bool → (ℕ → Bool) → Option Bytes → Outcome Bytes
unfolding port_number
run_trial_client has_socket connects received =
    if has_socket
    then if connects (port_number trial_port)
      then elim received [ none ↦ exit Error.lost_connection | some bytes ↦ terminate bytes ]
      else exit Error.not_connected
    else exit Error.no_socket

-- The client prints a text without NUL that it receives and that leaves room for the terminator; a text that
-- fills the buffer makes it write behind the end of it.
pub trial_client_lem :
    (connects : ℕ → Bool) (text : Bytes)
    → connects (port_number trial_port) ≡ true
    → NoNul text
    → length text ≤ buffer_size
    → run_trial_client true connects (some text)
      ≡ (if length text == buffer_size then fault else ok text)
unfolding run_trial_client terminate
trial_client_lem connects text connected no_nul fits =
    rw connected (elim (Bool-cases (length text == buffer_size)) [
      | inl full ↦
          let no_room : ltb (length text) buffer_size ≡ false = ground arith in rw (full, no_room)
      | inr room ↦
          let inside : length text < buffer_size = ground arith in
          rw (
            room,
            lt→ltb _ _ inside,
            c_string-append text (buffer_size - length text) no_nul (omega arith),
          )
    ])

served_lem :
    (answers : Answers) (accepts : Bool) (listener : Listener) (sent : Bytes)
    → serve_trial answers accepts ≡ ok (listener, sent)
    → (sent ≡ greeting) × (listener.port ≡ port_number trial_port)
unfolding serve_trial
served_lem answers accepts listener sent e = ground arith

NoNul-prefix : (part rest : Bytes) → NoNul (part ++ rest) → NoNul part
NoNul-prefix [] rest h = tt
NoNul-prefix (b ∷ part) rest (some_byte, h) = (some_byte, NoNul-prefix part rest h)

-- The client that is started beside the server prints the part of the greeting that its `recv` gives: the
-- greeting leaves room for the terminator.
pub trial_prints :
    (answers : Answers) (accepts : Bool) (listener : Listener) (sent part rest : Bytes)
    → serve_trial answers accepts ≡ ok (listener, sent)
    → sent ≡ part ++ rest
    → run_trial_client true (reaches listener) (some part) ≡ ok part
trial_prints answers accepts listener sent part rest served cut =
    let (greets, port) = served_lem answers accepts listener sent served in
    let small : length part < buffer_size =
      omega (arith, length-append part rest, ap length cut, ap length greets) in
    let no_nul : NoNul part =
      NoNul-prefix part rest (subst NoNul (sym greets ∙ cut) (omega arith)) in
    let room : (length part == buffer_size) ≡ false = ground arith in
    trial_client_lem (reaches listener) part ((==_iff _ _).1 port) no_nul (omega arith) ∙ rw room
