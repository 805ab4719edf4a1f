-- ===== src/Chat/Message/Laws.antt =====
-- The messages that `Client::get_message` of hw/server.cpp returns.
use pc_project_2024_mtr.Prelude.{
  ℕ, zero, suc, ◌-◌, ◌≤◌, ◌<◌, ◌≡◌, ◌≢◌, refl, ap, true, false, ◌&&◌, [], ◌∷◌, ◌++◌, Option, none,
  some, ◌==◌, if◌then◌else◌, arith, length, replicate, ok, fault, ok-injective, append-nil, sym,
  ◌∙◌, Bool-cases, inl, inr, or_fault, ◌>>=◌,
}
use pc_project_2024_mtr.Prelude.Int.{ℤ, pos, negsuc, leb_ℤ, neb_ℤ}
use pc_project_2024_mtr.Prelude.Text.{Bytes}
use pc_project_2024_mtr.Chat.Message.{buffer_size, c_string, Heard, buffer_of, receive, get_message}

-- No byte of the text is NUL.
abbrev pub NoNul : Bytes → Type 0
NoNul [] = Unit
NoNul (byte ∷ text) = (byte ≢ 0) × NoNul text

pub c_string-append :
    (text : Bytes) (n : ℕ) → NoNul text → 0 < n → c_string (text ++ replicate n 0) ≡ some text
unfolding c_string
c_string-append [] zero c h = absurd (omega arith)
c_string-append [] (suc n) c h = refl
c_string-append (byte ∷ text) n c h = ground (arith, c_string-append text n c.1 h)

c_string-NoNul : (text : Bytes) → NoNul text → c_string text ≡ none
unfolding c_string
c_string-NoNul [] c = refl
c_string-NoNul (byte ∷ text) c = ground (arith, c_string-NoNul text c.1)

-- There is a message to read: no timeout is set, or `poll` has found one.
abbrev pub IsReady : ℤ → ℤ → Type 0
IsReady timeout ready = (neb_ℤ timeout (negsuc 0) && leb_ℤ ready (pos 0)) ≡ false

receive_room :
    (text : Bytes)
    → NoNul text
    → 0 < length text
    → length text < buffer_size
    → receive (some text) ≡ ok (record { text = text; timed_out = false })
unfolding receive
receive_room [] c h room = absurd (omega arith)
receive_room (byte ∷ text) c h room =
    let found : c_string (buffer_of (byte ∷ text)) ≡ some (byte ∷ text) =
      c_string-append (byte ∷ text) (buffer_size - length (byte ∷ text)) c (omega arith) in
    ap (λ s. or_fault s >>= λ t. ok (record { text = t; timed_out = false })) found

receive_full : (text : Bytes) → NoNul text → length text ≡ buffer_size → receive (some text) ≡ fault
unfolding receive
receive_full [] c e = absurd (omega arith)
receive_full (byte ∷ text) c e =
    let none_left : buffer_size - length (byte ∷ text) ≡ 0 = omega arith in
    let same : buffer_of (byte ∷ text) ≡ byte ∷ text =
      ap (λ n. (byte ∷ text) ++ replicate n 0) none_left ∙ append-nil (byte ∷ text) in
    ap (λ s. or_fault s >>= λ t. ok (record { text = t; timed_out = false }))
      (ap c_string same ∙ c_string-NoNul (byte ∷ text) c)

-- A message of fewer bytes than the buffer has, none of them NUL, is returned as it was received; one that
-- fills the buffer makes `get_message` read past the end of it.
pub get_message_lem :
    (timeout ready : ℤ) (text : Bytes)
    → IsReady timeout ready
    → NoNul text
    → 0 < length text
    → length text ≤ buffer_size
    → get_message timeout ready (some text) ≡ (
        if length text == buffer_size
        then fault
        else ok (record { text = text; timed_out = false }))
unfolding get_message
get_message_lem timeout ready text r c some_byte fits =
    elim (Bool-cases (length text == buffer_size)) [
      | inl full ↦ rw (r, full, get_message) (receive_full text c (ground arith))
      | inr room ↦ rw (r, room, get_message) (receive_room text c some_byte (ground arith))
    ]

receive-timed_out :
    (received : Option Bytes) (heard : Heard)
    → receive received ≡ ok heard
    → heard.timed_out ≡ false
unfolding receive
receive-timed_out none heard e = cc
receive-timed_out (some []) heard e = cc
receive-timed_out (some (byte ∷ bytes)) heard e = go (c_string (buffer_of (byte ∷ bytes))) e
  where
    go :
        (s : Option Bytes)
        → (or_fault s >>= λ t. ok (record { text = t; timed_out = false })) ≡ ok heard
        → heard.timed_out ≡ false
    go none e' = cc
    go (some t) e' = ap (λ h. h.timed_out) (sym (ok-injective _ heard e'))

-- Where the client has timed out there is no text.
pub get_message-timed_out :
    (timeout ready : ℤ) (received : Option Bytes) (heard : Heard)
    → get_message timeout ready received ≡ ok heard
    → heard.timed_out ≡ true
    → heard.text ≡ []
unfolding get_message
get_message-timed_out timeout ready received heard e t =
    elim (Bool-cases (neb_ℤ timeout (negsuc 0) && leb_ℤ ready (pos 0))) [
      | inl gone ↦ ap (λ h. h.text) (sym (ok-injective _ heard (rw gone at e)))
      | inr there ↦ cc (t, receive-timed_out received heard (rw there at e))
    ]
