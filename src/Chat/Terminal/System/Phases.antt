-- ===== src/Chat/Terminal/System/Phases.antt =====
-- What the client of hw/client.cpp has printed and sent at any time.
use pc_project_2024_mtr.Prelude.{
  ◌≡◌, ◌≢◌, ◌⊎◌, inl, inr, refl, ap, subst, ◌∙◌, sym, true, false, List, [], ◌∷◌, ◌++◌, some, ok,
  ok-injective,
}
use pc_project_2024_mtr.Prelude.Text.{Bytes}
use pc_project_2024_mtr.Chat.Terminal.{Named, set_user_name}
use pc_project_2024_mtr.Chat.Terminal.Lines.{typed, AllLines, IsLine, IsMessage, AllMessages}
use pc_project_2024_mtr.Chat.Terminal.Naming.{set_user_name_lem}
use pc_project_2024_mtr.Chat.Terminal.System.{Main, naming, ended, Listener, unborn, Client}

pub head_eq : (a b : Bytes) (l k : List Bytes) → a ∷ l ≡ b ∷ k → (a ≡ b) × (l ≡ k)
head_eq a b l k e = (cc, cc)

module _ (welcome : Bytes) (messages more : List Bytes) (user : Bytes) (lines : List Bytes) where
  abbrev pub all_reads : List Bytes
  all_reads = welcome ∷ (messages ++ ([] ∷ more))

  abbrev pub all_input : Bytes
  all_input = typed (user ∷ lines) []

  -- Before the name is sent nothing has happened.
  pub record IsFresh (c : Client) : Type 0 where
    pub main : c.main ≡ naming
    pub chat_active : c.chat_active ≡ true
    pub incoming : c.incoming ≡ unborn
    pub outgoing : c.outgoing ≡ unborn
    pub reads : c.reads ≡ all_reads
    pub input : c.input ≡ all_input

  -- Some messages have been printed and some lines sent; the chat is active until a `read` fails, behind the
  -- last message.
  pub record IsTalking (c : Client) : Type 0 where
    pub heard : List Bytes
    pub unheard : List Bytes
    pub said : List Bytes
    pub unsaid : List Bytes
    pub main : c.main ≢ naming
    pub all_heard : messages ≡ heard ++ unheard
    pub all_said : lines ≡ said ++ unsaid
    pub printed : c.printed ≡ welcome ∷ heard
    pub sent : c.sent ≡ user ∷ said
    pub input : c.input ≡ typed unsaid []
    pub active :
        ((c.chat_active ≡ true) × (c.reads ≡ unheard ++ ([] ∷ more)) × (c.main ≢ ended))
        ⊎ ((c.chat_active ≡ false) × (unheard ≡ []))

  abbrev pub Inv : Client → Type 0
  Inv c = IsFresh c ⊎ IsTalking c

module _ {welcome : Bytes} {messages more : List Bytes} {user : Bytes} {lines : List Bytes} where
  -- A step that says and hears nothing.
  pub keep :
      {c : Client} (t : IsTalking welcome messages more user lines c) (m : Main) (i o : Listener)
      → m ≢ naming
      → (c.main ≢ ended → m ≢ ended)
      → IsTalking welcome messages more user lines
          (record c { main = m; incoming = i; outgoing = o })
  keep {c} t m i o named alive = record {
    heard = t.heard;
    unheard = t.unheard;
    said = t.said;
    unsaid = t.unsaid;
    main = named;
    all_heard = t.all_heard;
    all_said = t.all_said;
    printed = t.printed;
    sent = t.sent;
    input = t.input;
    active = elim t.active [
      | inl (on, reads, not_ended) ↦ inl (on, reads, alive not_ended)
      | inr off ↦ inr off
    ];
  }

  module _ (welcomes : IsMessage welcome) (arriving : AllMessages messages)
      (naming_line : IsLine user) (typing : AllLines lines) where
    pub named-IsTalking :
        {c : Client} {read : Bytes} {reads : List Bytes} {named : Named}
        → IsFresh welcome messages more user lines c
        → c.reads ≡ read ∷ reads
        → set_user_name (some read) c.input ≡ ok named
        → (d : Client) → d.main ≢ naming
        → d.main ≢ ended
        → d.chat_active ≡ c.chat_active
        → d.reads ≡ reads
        → d.input ≡ named.input
        → d.printed ≡ named.printed ∷ []
        → d.sent ≡ named.sent ∷ []
        → IsTalking welcome messages more user lines d
    named-IsTalking {c} {read} {reads} {named} f e e' d main alive active rest input printed sent =
        let (read_eq, reads_eq) = head_eq read welcome reads _ (sym e ∙ f.reads) in
        let whole : set_user_name (some welcome) (all_input welcome messages more user lines)
            ≡ ok named =
          subst
            (λ b. set_user_name (some b) (all_input welcome messages more user lines) ≡ ok named)
            read_eq (subst (λ b. set_user_name (some read) b ≡ ok named) f.input e') in
        let same : record { printed = welcome; sent = user; input = typed lines [] } ≡ named =
          ok-injective _ _
            (sym (set_user_name_lem welcome user (typed lines []) welcomes naming_line) ∙ whole) in
        record {
          heard = [];
          unheard = messages;
          said = [];
          unsaid = lines;
          main = main;
          all_heard = refl;
          all_said = refl;
          printed = printed ∙ ap (λ n. n.printed ∷ []) (sym same);
          sent = sent ∙ ap (λ n. n.sent ∷ []) (sym same);
          input = input ∙ ap (λ n. n.input) (sym same);
          active = inl (active ∙ f.chat_active, rest ∙ reads_eq, alive);
        }
