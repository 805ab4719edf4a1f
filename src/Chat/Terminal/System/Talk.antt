-- ===== src/Chat/Terminal/System/Talk.antt =====
-- How a thread of hw/client.cpp that hears or says something changes what has been printed and sent.
use pc_project_2024_mtr.Prelude.{
  ℕ, ◌-◌, ◌≡◌, ◌≢◌, inl, inr, refl, ap, ap₂, fault, subst, ◌∙◌, sym, true, false, List, [], ◌∷◌,
  ◌++◌, some, ok, arith, append_assoc, ok-injective, length,
}
use mathlib.Core.Option.{some-injective}
use pc_project_2024_mtr.Prelude.Text.{Bytes}
use pc_project_2024_mtr.Chat.Message.{c_string, buffer_of, buffer_size}
use pc_project_2024_mtr.Chat.Message.Laws.{c_string-append}
use pc_project_2024_mtr.Chat.Terminal.{read_and_sanitize_user_input}
use pc_project_2024_mtr.Chat.Terminal.Lines.{
  typed, AllLines, IsLine, IsMessage, AllMessages, sanitize_lem,
}
use pc_project_2024_mtr.Chat.Terminal.System.{ended, done, Client}
use pc_project_2024_mtr.Chat.Terminal.System.Phases.{IsTalking, head_eq}

AllMessages-middle :
    (heard : List Bytes) (m : Bytes) (rest : List Bytes)
    → AllMessages (heard ++ (m ∷ rest))
    → IsMessage m
AllMessages-middle [] m rest h = h.0
AllMessages-middle (n ∷ heard) m rest h = AllMessages-middle heard m rest h.1

AllLines-middle :
    (said : List Bytes) (line : Bytes) (rest : List Bytes)
    → AllLines (said ++ (line ∷ rest))
    → IsLine line
AllLines-middle [] line rest h = h.0
AllLines-middle (l ∷ said) line rest h = AllLines-middle said line rest h.1

sanitize_nil : read_and_sanitize_user_input [] [] ≡ fault
unfolding read_and_sanitize_user_input
sanitize_nil = refl

module _ {welcome : Bytes} {messages more : List Bytes} {user : Bytes} {lines : List Bytes} where
  module _ (welcomes : IsMessage welcome) (arriving : AllMessages messages)
      (naming_line : IsLine user) (typing : AllLines lines) where
    pub hear-IsTalking :
        {c : Client} (t : IsTalking welcome messages more user lines c) {byte : ℕ}
        {bytes text : Bytes} {reads : List Bytes}
        → c.main ≢ ended
        → c.chat_active ≡ true
        → c.reads ≡ (byte ∷ bytes) ∷ reads
        → c_string (buffer_of (byte ∷ bytes)) ≡ some text
        → IsTalking welcome messages more user lines
            (record c { reads = reads; printed = c.printed ++ (text ∷ []) })
    hear-IsTalking {c} t {byte} {bytes} {text} {reads} alive on e e' = elim t.active [
      | inl (_, arrived, _) ↦ go t.unheard t.all_heard arrived
      | inr (off, _) ↦ absurd (cc (on, off))
    ]
      where
        go :
            (u : List Bytes)
            → messages ≡ t.heard ++ u
            → c.reads ≡ u ++ ([] ∷ more)
            → IsTalking welcome messages more user lines
                (record c { reads = reads; printed = c.printed ++ (text ∷ []) })
        go [] all r = absurd (cc (head_eq (byte ∷ bytes) [] reads more (sym e ∙ r)).0)
        go (m ∷ u) all r =
            let (same, rest) = head_eq (byte ∷ bytes) m reads (u ++ ([] ∷ more)) (sym e ∙ r) in
            let whole : IsMessage m =
              AllMessages-middle t.heard m u (subst AllMessages all arriving) in
            let string : c_string (buffer_of m) ≡ some m =
              c_string-append m (buffer_size - length m) whole.0 (omega arith) in
            let text_eq : text ≡ m =
              some-injective _ _ (sym e' ∙ ap (λ b. c_string (buffer_of b)) same ∙ string) in
            record {
              heard = t.heard ++ (m ∷ []);
              unheard = u;
              said = t.said;
              unsaid = t.unsaid;
              main = t.main;
              all_heard = all ∙ sym (append_assoc t.heard (m ∷ []) u);
              all_said = t.all_said;
              printed = ap₂ (λ p x. p ++ (x ∷ [])) t.printed text_eq;
              sent = t.sent;
              input = t.input;
              active = inl (on, rest, alive);
            }

    pub lose-IsTalking :
        {c : Client} (t : IsTalking welcome messages more user lines c) {reads : List Bytes}
        → c.chat_active ≡ true
        → c.reads ≡ [] ∷ reads
        → IsTalking welcome messages more user lines
            (record c { reads = reads; chat_active = false; incoming = done })
    lose-IsTalking {c} t {reads} on e = elim t.active [
      | inl (_, arrived, _) ↦ go t.unheard t.all_heard arrived
      | inr (off, _) ↦ absurd (cc (on, off))
    ]
      where
        go :
            (u : List Bytes)
            → messages ≡ t.heard ++ u
            → c.reads ≡ u ++ ([] ∷ more)
            → IsTalking welcome messages more user lines
                (record c { reads = reads; chat_active = false; incoming = done })
        go [] all r = record {
          heard = t.heard;
          unheard = [];
          said = t.said;
          unsaid = t.unsaid;
          main = t.main;
          all_heard = all;
          all_said = t.all_said;
          printed = t.printed;
          sent = t.sent;
          input = t.input;
          active = inr (refl, refl);
        }
        go (m ∷ u) all r =
            let whole : IsMessage m =
              AllMessages-middle t.heard m u (subst AllMessages all arriving) in
            absurd (
              omega (arith, whole, ap length (head_eq [] m reads (u ++ ([] ∷ more)) (sym e ∙ r)).0))

    pub say-IsTalking :
        {c : Client} (t : IsTalking welcome messages more user lines c) {message rest : Bytes}
        → read_and_sanitize_user_input [] c.input ≡ ok (message, rest)
        → IsTalking welcome messages more user lines
            (record c { input = rest; sent = c.sent ++ (message ∷ []) })
    say-IsTalking {c} t {message} {rest} e = go t.unsaid t.all_said t.input
      where
        go :
            (u : List Bytes)
            → lines ≡ t.said ++ u
            → c.input ≡ typed u []
            → IsTalking welcome messages more user lines
                (record c { input = rest; sent = c.sent ++ (message ∷ []) })
        go [] all i = absurd (cc (sym e ∙ ap (read_and_sanitize_user_input []) i ∙ sanitize_nil))
        go (line ∷ u) all i =
            let whole : IsLine line = AllLines-middle t.said line u (subst AllLines all typing) in
            let read : (message, rest) ≡ (line, typed u []) = ok-injective _ _ (
              sym e
              ∙ ap (read_and_sanitize_user_input []) i
              ∙ sanitize_lem [] line (typed u []) whole) in
            record {
              heard = t.heard;
              unheard = t.unheard;
              said = t.said ++ (line ∷ []);
              unsaid = u;
              main = t.main;
              all_heard = t.all_heard;
              all_said = all ∙ sym (append_assoc t.said (line ∷ []) u);
              printed = t.printed;
              sent = ap₂ (λ p x. p ++ (x ∷ [])) t.sent (ap (λ r. r.0) read);
              input = ap (λ r. r.1) read;
              active = t.active;
            }
