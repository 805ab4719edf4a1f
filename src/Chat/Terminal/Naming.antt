-- ===== src/Chat/Terminal/Naming.antt =====
-- The name that a user types at hw/client.cpp, on its way to `handle_client` of hw/server.cpp.
use pc_project_2024_mtr.Prelude.{
  ℕ, ◌<◌, ◌≡◌, refl, [], ◌∷◌, ◌++◌, some, false, ◌==◌, length, ok, arith, ◌-◌,
}
use pc_project_2024_mtr.Prelude.Int.{ℤ}
use pc_project_2024_mtr.Prelude.Text.{Bytes}
use pc_project_2024_mtr.Chat.Message.{buffer_size, Heard, get_message}
use pc_project_2024_mtr.Chat.Message.Laws.{IsReady, c_string-append, get_message_lem}
use pc_project_2024_mtr.Chat.Handler.{Turn, take_name, registering}
use pc_project_2024_mtr.Chat.Terminal.{newline, Named, set_user_name}
use pc_project_2024_mtr.Chat.Terminal.Lines.{IsLine, IsMessage, sanitize_lem}

pub set_user_name_lem :
    (welcome name rest : Bytes)
    → IsMessage welcome
    → IsLine name
    → set_user_name (some welcome) (name ++ (newline ∷ rest))
      ≡ ok (record { printed = welcome; sent = name; input = rest })
unfolding set_user_name
set_user_name_lem [] name rest m h = absurd (omega arith)
set_user_name_lem (byte ∷ bytes) name rest m h =
    rw
      (
        c_string-append (byte ∷ bytes) (buffer_size - length (byte ∷ bytes)) m.0 (omega arith),
        sanitize_lem [] name rest h,
      )
      refl

-- A name that is typed behind the welcome, and fits in a buffer, is the one under which the server goes on
-- to register the client, where it receives the message in one piece and in time.
pub name-arrives :
    (welcome name rest : Bytes) (timeout ready : ℤ) (client : ℕ) (t : Turn)
    → IsMessage welcome
    → IsLine name
    → 0 < length name
    → IsReady timeout ready
    → (n : Named) × (heard : Heard) × (set_user_name (some welcome) (name ++ (newline ∷ rest))
        ≡ ok n)
      × (get_message timeout ready (some n.sent) ≡ ok heard)
      × ((take_name client heard t).session.name ≡ name)
      × ((take_name client heard t).session.phase ≡ registering)
unfolding take_name
name-arrives welcome name rest timeout ready client t m h some_byte r =
    let short : (length name == buffer_size) ≡ false = ground arith in
    let some_name : (length name == 0) ≡ false = ground arith in
    (
      record { printed = welcome; sent = name; input = rest },
      record { text = name; timed_out = false },
      set_user_name_lem welcome name rest m h,
      rw short at (get_message_lem timeout ready name r h.1 some_byte (omega arith)),
      rw (some_name, take_name) refl,
      rw (some_name, take_name) refl,
    )
