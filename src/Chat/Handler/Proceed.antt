-- ===== src/Chat/Handler/Proceed.antt =====
-- Every step of a client's thread in `handle_client` of hw/server.cpp.
use pc_project_2024_mtr.Prelude.{
  ℕ, suc, ◌+◌, ◌≤◌, ◌≡◌, inl, inr, refl, sym, ◌∙◌, ap, Bool, true, false, List, Option, none, some,
  ◌==◌, length, arith, Bool-cases, Option-cases,
}
use pc_project_2024_mtr.Prelude.Int.{pos, ◌-ℤ◌, -ℤ_one}
use pc_project_2024_mtr.Prelude.Text.{Bytes}
use pc_project_2024_mtr.Chat.Users.{lookup, next_user}
use pc_project_2024_mtr.Chat.Message.{Heard}
use pc_project_2024_mtr.Chat.Handler.{
  Phase, After, then_looping, then_closing, phase_after, inserting, telling, tell, said, announce,
  greeting, naming, named, registering, joining, looping, hearing, leaving, closing, returned,
  deleted, Turn, go_to, answer, take_name, try_register, proceed, listens, has_ended, is_list,
  is_bye,
}
use pc_project_2024_mtr.Chat.Handler.Turns.{
  on, may_be_online, must_be_online, has_tried, IsSession, IsTurn, Keeps, Keeps-users,
  Keeps-register, Keeps-unregister, Registered,
}

module _ (client : ℕ) (t : Turn) (v : IsTurn client t) where
  -- What is known of a client by its phase.
  known :
      (phase : Phase)
      → t.session.phase ≡ phase
      → (t.session.closes ≡ on (has_ended phase) + on t.session.rejected)
        × (on t.session.is_online ≤ may_be_online phase)
        × (must_be_online phase ≤ on t.session.is_online)
        × (on t.session.rejected ≤ has_tried phase)
        × (on t.session.rejected + on t.session.is_online ≤ 1)
  known phase e = (
    v.session.closed ∙ ap (λ p. on (has_ended p) + on t.session.rejected) e,
    omega (arith, v.session.may, ap may_be_online e),
    omega (arith, v.session.must, ap must_be_online e),
    omega (arith, v.session.tried, ap has_tried e),
    v.session.apart,
  )

  listens_at :
      (phase : Phase)
      → t.session.phase ≡ phase
      → listens t.session ≡ listens (record t.session { phase = phase })
  listens_at phase e = ap (λ p. listens (record t.session { phase = p })) e

  on_true : (b : Bool) → 1 ≤ on b → b ≡ true
  on_true true h = refl
  on_true false h = absurd (omega arith)

  -- `users` stays, the client goes on to another phase, and something may have been sent.
  moves :
      (phase : Phase) (sent : List (ℕ × Bytes))
      → has_ended phase ≡ false
      → on (has_ended t.session.phase) ≡ 0
      → on t.session.is_online ≤ may_be_online phase
      → must_be_online phase ≤ on t.session.is_online
      → on t.session.rejected ≤ has_tried phase
      → has_tried t.session.phase ≤ has_tried phase
      → has_tried phase ≤ 1
      → Keeps client t (record {
        session = record t.session { phase = phase };
        users = t.users;
        live = t.live;
        sent = sent;
      })
  moves phase sent runs ran may must tried stays most =
      Keeps-users client t v (record t.session { phase = phase }) t.live sent
        (omega (arith, ap on runs, ran, v.session.closed, may, must, tried, v.session.apart)) refl
        (λ _. refl) (λ g. (omega (arith, g.0, g.1, stays, most), refl)) (omega arith) (omega arith)

  Keeps-answer :
      (heard : Heard) → t.session.phase ≡ hearing heard → Keeps client t (answer client heard t)
  unfolding answer announce
  Keeps-answer heard e =
      let (closed, may, must, tried, apart) = known (hearing heard) e in
      let online = on_true t.session.is_online must in
      let offline : IsSession (record t.session { is_online = false; phase = looping }) =
        omega (arith, closed, ap on online, apart) in
      let registered : Registered (record t.session { phase = looping }) =
        omega (arith, ap on online, apart) in
      let kept = λ (sent : List (ℕ × Bytes)).
        moves looping sent refl (ap (λ p. on (has_ended p)) e) (omega (arith, may)) (omega arith)
          (omega (arith, tried)) (omega (arith, ap has_tried e)) (omega arith) in
      elim (Bool-cases heard.timed_out) [
        | inl late ↦ rw (late, answer) (Keeps-unregister client t v _ looping registered offline)
        | inr in_time ↦ elim (Bool-cases (length heard.text == 0)) [
          | inl empty ↦
              rw (in_time, empty, answer) (Keeps-unregister client t v _ looping registered offline)
          | inr some_text ↦ elim (Bool-cases (is_list heard.text)) [
            | inl list ↦ rw (in_time, some_text, list, answer) (kept _)
            | inr other ↦ elim (Bool-cases (is_bye heard.text)) [
              | inl bye ↦
                  rw (in_time, some_text, other, bye, answer)
                    (Keeps-unregister client t v _ looping registered offline)
              | inr says ↦
                  rw (in_time, some_text, other, says, answer)
                    (moves (telling (said t.session.name heard.text) none then_looping) t.sent refl
                      (ap (λ p. on (has_ended p)) e) (omega (arith, may)) (omega arith)
                      (omega (arith, tried)) (omega (arith, ap has_tried e)) (omega arith))
            ]
          ]
        ]
      ]

  Keeps-take_name :
      (heard : Heard) → t.session.phase ≡ named heard → Keeps client t (take_name client heard t)
  unfolding take_name
  Keeps-take_name heard e =
      let (closed, may, must, tried, apart) = known (named heard) e in
      let off : on t.session.is_online ≡ 0 = omega (arith, may) in
      let untried : has_tried t.session.phase ≡ 0 = ap has_tried e in
      let one_less = -ℤ_one t.live in
      let over = λ (sent : List (ℕ × Bytes)).
        Keeps-users client t v
          (record t.session { phase = returned; name = heard.text; closes = suc t.session.closes })
          (t.live -ℤ pos 1) sent (omega (arith, closed, off, tried)) refl
          (λ online. absurd (omega (arith, off, ap on online)))
          (λ g. absurd (omega (arith, g.0, untried))) (omega (arith, one_less)) (omega arith) in
      elim (Bool-cases (length heard.text == 0)) [
        | inl empty ↦ rw (empty, take_name) (over _)
        | inr some_text ↦ elim (Bool-cases heard.timed_out) [
          | inl late ↦ rw (some_text, late, take_name) (over _)
          | inr in_time ↦
              rw (some_text, in_time, take_name)
                (Keeps-users client t v
                  (record t.session { phase = registering; name = heard.text }) t.live _
                  (omega (arith, closed, off, tried)) refl
                  (λ online. absurd (omega (arith, off, ap on online)))
                  (λ g. absurd (omega (arith, g.0, untried))) (omega arith) (omega arith))
        ]
      ]

  Keeps-try_register : t.session.phase ≡ registering → Keeps client t (try_register t)
  unfolding try_register
  Keeps-try_register e =
      let (closed, may, must, tried, apart) = known registering e in
      let untried : has_tried t.session.phase ≡ 0 = ap has_tried e in
      elim (Option-cases (lookup t.session.name t.users)) [
        | inl free ↦
            rw (free, try_register)
              (moves inserting t.sent refl (ap (λ p. on (has_ended p)) e) (omega (arith, may))
                (omega arith) (omega (arith, tried)) (omega (arith, untried)) (omega arith))
        | inr (other, taken) ↦
            rw (taken, try_register)
              (Keeps-users client t v
                (record t.session {
                  phase = joining;
                  rejected = true;
                  closes = suc t.session.closes;
                })
                (t.live -ℤ pos 1) _ (omega (arith, closed, may, tried)) refl (λ _. refl)
                (λ g. absurd (omega (arith, g.0, untried))) (omega (arith, -ℤ_one t.live))
                (omega arith))
      ]

  Keeps-tell :
      (message : Bytes) (last : Option Bytes) (after : After)
      → t.session.phase ≡ telling message last after
      → Keeps client t (tell client message last after t)
  unfolding tell
  Keeps-tell message last after e =
      let (closed, may, must, tried, apart) = known (telling message last after) e in
      let ran : on (has_ended t.session.phase) ≡ 0 = ap (λ p. on (has_ended p)) e in
      let was : has_tried t.session.phase ≡ 1 = ap has_tried e in
      elim (Option-cases (next_user last t.users)) [
        | inl done ↦ rw (done, tell) (over after may tried ran was)
        | inr ((name, other), found) ↦ elim (Bool-cases (other == client)) [
          | inl self ↦ rw (found, self, tell) (go name after t.sent may tried ran was)
          | inr else_one ↦ rw (found, else_one, tell) (go name after _ may tried ran was)
        ]
      ]
    where
      over :
          (after : After)
          → on t.session.is_online ≤ may_be_online (telling message last after)
          → on t.session.rejected ≤ 1
          → on (has_ended t.session.phase) ≡ 0
          → has_tried t.session.phase ≡ 1
          → Keeps client t (go_to (phase_after after) t)
      over then_looping may tried ran was =
          moves looping t.sent refl ran may (omega arith) tried (omega (arith, was)) (omega arith)
      over then_closing may tried ran was =
          moves closing t.sent refl ran may (omega arith) tried (omega (arith, was)) (omega arith)

      go :
          (name : Bytes) (after : After) (sent : List (ℕ × Bytes))
          → on t.session.is_online ≤ may_be_online (telling message last after)
          → on t.session.rejected ≤ 1
          → on (has_ended t.session.phase) ≡ 0
          → has_tried t.session.phase ≡ 1
          → Keeps client t (record {
            session = record t.session { phase = telling message (some name) after };
            users = t.users;
            live = t.live;
            sent = sent;
          })
      go name then_looping sent may tried ran was =
          moves (telling message (some name) then_looping) sent refl ran may (omega arith) tried
            (omega (arith, was)) (omega arith)
      go name then_closing sent may tried ran was =
          moves (telling message (some name) then_closing) sent refl ran may (omega arith) tried
            (omega (arith, was)) (omega arith)

  -- Every step of the thread.
  pub Keeps-proceed :
      (phase : Phase)
      → t.session.phase ≡ phase
      → listens t.session ≡ false
      → has_ended phase ≡ false
      → Keeps client t (proceed client phase t)
  unfolding proceed announce
  Keeps-proceed greeting e l n =
      moves naming _ refl (ap (λ p. on (has_ended p)) e) (omega (arith, known greeting e))
        (omega arith) (omega (arith, known greeting e)) (omega (arith, ap has_tried e))
        (omega arith)
  Keeps-proceed naming e l n = absurd (cc (listens_at naming e))
  Keeps-proceed (named heard) e l n = Keeps-take_name heard e
  Keeps-proceed registering e l n = Keeps-try_register e
  Keeps-proceed inserting e l n =
      let (closed, may, must, tried, apart) = known inserting e in
      Keeps-register client t v _ joining (ap has_tried e) (omega (arith, tried))
        (omega (arith, closed, tried))
  Keeps-proceed joining e l n =
      moves (telling _ none then_looping) _ refl (ap (λ p. on (has_ended p)) e)
        (omega (arith, known joining e)) (omega arith) (omega (arith, known joining e))
        (omega (arith, ap has_tried e)) (omega arith)
  Keeps-proceed looping e l n =
      let off : t.session.is_online ≡ false = sym (listens_at looping e) ∙ l in
      moves leaving _ refl (ap (λ p. on (has_ended p)) e) (omega (arith, ap on off)) (omega arith)
        (omega (arith, known looping e)) (omega (arith, ap has_tried e)) (omega arith)
  Keeps-proceed (hearing heard) e l n = Keeps-answer heard e
  Keeps-proceed (telling message last after) e l n = Keeps-tell message last after e
  Keeps-proceed leaving e l n =
      moves (telling _ none then_closing) _ refl (ap (λ p. on (has_ended p)) e)
        (omega (arith, known leaving e)) (omega arith) (omega (arith, known leaving e))
        (omega (arith, ap has_tried e)) (omega arith)
  Keeps-proceed closing e l n =
      Keeps-users client t v (record t.session { phase = deleted; closes = suc t.session.closes })
        (t.live -ℤ pos 1) _ (omega (arith, known closing e)) refl (λ _. refl)
        (λ g. (omega (arith, g.1), refl)) (omega (arith, -ℤ_one t.live)) (omega arith)
  Keeps-proceed returned e l n = cc
  Keeps-proceed deleted e l n = cc
