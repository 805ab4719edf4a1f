-- ===== src/Chat/Terminal/System/Laws.antt =====
-- What the client of hw/client.cpp has printed and sent, whatever the interleaving of its threads is.
use pc_project_2024_mtr.Prelude.{◌≡◌, inl, inr, refl, ap, ◌∙◌, sym, List, [], ◌∷◌, ◌++◌, append-nil}
use pc_project_2024_mtr.Prelude.Text.{Bytes}
use pc_project_2024_mtr.Chat.Terminal.Lines.{typed, AllLines, IsLine, IsMessage, AllMessages}
use pc_project_2024_mtr.Chat.Terminal.System.Talk.{hear-IsTalking, lose-IsTalking, say-IsTalking}
use pc_project_2024_mtr.Chat.Terminal.System.Phases.{
  all_reads, all_input, Inv, keep, named-IsTalking,
}
use pc_project_2024_mtr.Chat.Terminal.System.{
  ended, Client, Step, name, start_incoming, leave_incoming, start_outgoing, leave_outgoing,
  enter_incoming, enter_incoming_late, enter_outgoing, enter_outgoing_late, hear, set_close_chat,
  say, finish, Reach, start, later,
}

module _ (welcome : Bytes) (messages more : List Bytes) (user : Bytes) (lines : List Bytes)
    (welcomes : IsMessage welcome) (arriving : AllMessages messages) (naming_line : IsLine user)
    (typing : AllLines lines) where
  step-Inv :
      {c d : Client}
      → Step c d
      → Inv welcome messages more user lines c
      → Inv welcome messages more user lines d
  step-Inv (name m e e') (inl f) = inr (
      named-IsTalking welcomes arriving naming_line typing f e e' _ (λ x. cc) (λ x. cc) refl refl
        refl refl refl)
  step-Inv (name m e e') (inr t) = absurd (t.main m)
  step-Inv (start_incoming m) (inl f) = absurd (cc (f.main))
  step-Inv (start_incoming m) (inr t) = inr (keep t _ _ _ (λ x. cc) (λ _ x. cc))
  step-Inv (leave_incoming m) (inl f) = absurd (cc (f.main))
  step-Inv (leave_incoming m) (inr t) = inr (keep t _ _ _ (λ x. cc) (λ _ x. cc))
  step-Inv (start_outgoing m) (inl f) = absurd (cc (f.main))
  step-Inv (start_outgoing m) (inr t) = inr (keep t _ _ _ (λ x. cc) (λ _ x. cc))
  step-Inv (leave_outgoing m) (inl f) = absurd (cc (f.main))
  step-Inv (leave_outgoing m) (inr t) = inr (keep t _ _ _ (λ x. cc) (λ _ x. cc))
  step-Inv (enter_incoming m b) (inl f) = absurd (cc (f.main))
  step-Inv (enter_incoming m b) (inr t) = inr (keep t _ _ _ t.main (λ a. a))
  step-Inv (enter_incoming_late m a b) (inl f) = absurd (cc (f.incoming))
  step-Inv (enter_incoming_late m a b) (inr t) = inr (keep t _ _ _ (λ x. cc) (λ _ x. cc))
  step-Inv (enter_outgoing m b) (inl f) = absurd (cc (f.main))
  step-Inv (enter_outgoing m b) (inr t) = inr (keep t _ _ _ t.main (λ a. a))
  step-Inv (enter_outgoing_late m a b) (inl f) = absurd (cc (f.outgoing))
  step-Inv (enter_outgoing_late m a b) (inr t) = inr (keep t _ _ _ (λ x. cc) (λ _ x. cc))
  step-Inv (hear a r on e e') (inl f) = absurd (cc (f.incoming))
  step-Inv (hear a r on e e') (inr t) =
      inr (hear-IsTalking welcomes arriving naming_line typing t a on e e')
  step-Inv (set_close_chat a r on e) (inl f) = absurd (cc (f.incoming))
  step-Inv (set_close_chat a r on e) (inr t) =
      inr (lose-IsTalking welcomes arriving naming_line typing t on e)
  step-Inv (say a r e) (inl f) = absurd (cc (f.outgoing))
  step-Inv (say a r e) (inr t) = inr (say-IsTalking welcomes arriving naming_line typing t e)
  step-Inv (finish m off) (inl f) = absurd (cc (f.main))
  step-Inv (finish m off) (inr t) = inr (record {
    heard = t.heard;
    unheard = t.unheard;
    said = t.said;
    unsaid = t.unsaid;
    main = λ x. cc;
    all_heard = t.all_heard;
    all_said = t.all_said;
    printed = t.printed;
    sent = t.sent;
    input = t.input;
    active = elim t.active [ inl (on, _, _) ↦ absurd (cc (on, off)) | inr silent ↦ inr silent ];
  })

  reach-Inv :
      {c : Client}
      → Reach
          (all_reads welcome messages more user lines)
          (all_input welcome messages more user lines)
          c
      → Inv welcome messages more user lines c
  reach-Inv start = inl (record {
    main = refl;
    chat_active = refl;
    incoming = refl;
    outgoing = refl;
    reads = refl;
    input = refl;
  })
  reach-Inv (later r st) = step-Inv st (reach-Inv r)

-- The welcome and then the messages that fit arrive, each in a `read` of its own, until a `read` fails, and
-- the user types a name and lines that fit. When the client has ended it has printed all that arrived, in
-- order; it has sent the name, and behind it some of the lines, from the first one on, in order, whatever the
-- interleaving of its threads was. A run in which a thread reads its socket when the function that started it
-- has returned is undefined behaviour: it has no end here.
pub ended_lem :
    (welcome : Bytes) (messages more : List Bytes) (user : Bytes) (lines : List Bytes)
    → IsMessage welcome
    → AllMessages messages
    → IsLine user
    → AllLines lines
    → (c : Client) → Reach (welcome ∷ (messages ++ ([] ∷ more))) (typed (user ∷ lines) []) c
    → c.main ≡ ended
    → (c.printed ≡ welcome ∷ messages)
      × ((said : List Bytes) × (unsaid : List Bytes) × (lines ≡ said ++ unsaid)
          × (c.sent ≡ user ∷ said))
ended_lem welcome messages more user lines welcomes arriving naming_line typing c reach m =
    elim (reach-Inv welcome messages more user lines welcomes arriving naming_line typing reach) [
      | inl f ↦ absurd (cc (m, f.main))
      | inr t ↦ elim t.active [
        | inl (_, _, alive) ↦ absurd (alive m)
        | inr (_, nothing_left) ↦ (
          t.printed
              ∙ ap (λ l. welcome ∷ l)
                  (sym (append-nil t.heard)
                    ∙ sym (t.all_heard ∙ ap (λ u. t.heard ++ u) nothing_left)),
          (t.said, t.unsaid, t.all_said, t.sent),
        )
      ]
    ]
