-- ===== src/Chat/Message.antt =====
-- `Client::get_message` of hw/server.cpp, and the C string in a buffer.
pub mod Laws
use pc_project_2024_mtr.Prelude.{
  ℕ, zero, suc, ◌-◌, ◌≡◌, Bool, true, false, ◌&&◌, List, [], ◌∷◌, ◌++◌, Option, none, some, ◌==◌,
  if◌then◌else◌, length, replicate, Outcome, ok, ◌>>=◌, or_fault,
}
use pc_project_2024_mtr.Prelude.Int.{ℤ, pos, negsuc, leb_ℤ, neb_ℤ}
use pc_project_2024_mtr.Prelude.Text.{Bytes}

abbrev pub buffer_size : ℕ
buffer_size = 1024

-- The bytes of a buffer up to its first NUL; `none` if a reader would run past its end.
unfoldable pub c_string : Bytes → Option Bytes
c_string [] = none
c_string (byte ∷ buffer) =
    let rest : Option Bytes = elim (c_string buffer) [ none ↦ none | some s ↦ some (byte ∷ s) ] in
    if byte == 0 then some [] else rest

-- What `get_message` returns, and `timed_out` of its client.
pub record Heard : Type 0 where
  pub text : Bytes
  pub timed_out : Bool

-- The buffer, cleared and with what `recv` wrote.
abbrev pub buffer_of : Bytes → Bytes
buffer_of bytes = bytes ++ replicate (buffer_size - length bytes) 0

-- The end of `get_message`. `received` is what `recv` gives: an error, no byte where the client has closed
-- the connection, or at most `buffer_size` bytes.
unfoldable pub receive : Option Bytes → Outcome Heard
unfolding c_string
receive none = ok (record { text = []; timed_out = false })
receive (some []) = ok (record { text = []; timed_out = false })
receive (some (byte ∷ bytes)) = do
  text ← or_fault (c_string (buffer_of (byte ∷ bytes)))
  ok (record { text = text; timed_out = false })

-- `Client::get_message`, where `poll` returns `ready`.
unfoldable pub get_message : ℤ → ℤ → Option Bytes → Outcome Heard
unfolding receive
get_message timeout ready received =
    if neb_ℤ timeout (negsuc 0) && leb_ℤ ready (pos 0)
    then ok (record { text = []; timed_out = if neb_ℤ ready (pos 0) then false else true })
    else receive received
