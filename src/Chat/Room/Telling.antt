-- ===== src/Chat/Room/Telling.antt =====
-- The loop of `broadcast` in the chat room of hw/server.cpp.
use pc_project_2024_mtr.Prelude.{
  ℕ, zero, suc, ◌≤◌, ◌≡◌, ◌≢◌, ◌⊎◌, inl, inr, refl, sym, ◌∙◌, ap, true, false, [], ◌∷◌, ◌++◌,
  append-nil, append_assoc, Option, none, some, ◌==◌, if◌then◌else◌, length, arith, Option-cases,
  Bool-cases,
}
use pc_project_2024_mtr.Prelude.Int.{pos_part}
use pc_project_2024_mtr.Prelude.Text.{Bytes}
use pc_project_2024_mtr.Chat.Users.{Users, lookup, next_user, broadcast}
use pc_project_2024_mtr.Chat.Users.Laws.{IsSorted}
use pc_project_2024_mtr.Chat.Users.Loop.{
  behind, next_user-nil, next_user-cons, behind-next, next_user-lookup,
}
use pc_project_2024_mtr.Chat.Users.Broadcast.{
  received, received-append, received-broadcast, is_user,
}
use pc_project_2024_mtr.Chat.Message.{Heard}
use pc_project_2024_mtr.Chat.Settings.{Options}
use pc_project_2024_mtr.Chat.Handler.{
  After, then_looping, looping, hearing, telling, phase_after, Turn, go_to, answer, announce, tell,
  proceed, send_message, has_ended, is_list, is_bye, said,
}
use pc_project_2024_mtr.Chat.Room.{Room, Reach, turn_of}
use pc_project_2024_mtr.Chat.Room.Register.{IsRegister}
use pc_project_2024_mtr.Chat.Room.Invariant.{Reach-Inv}
use pc_project_2024_mtr.Chat.Room.Members.{lookup-online}

-- So many steps of the thread of a client, where no other thread comes between them.
unfoldable pub continues : ℕ → ℕ → Turn → Turn
continues zero client t = t
continues (suc n) client t = continues n client (proceed client t.session.phase t)

module _ (client : ℕ) (message : Bytes) (after : After) where
  tell_self :
      (t : Turn) (last : Option Bytes) (name : Bytes) (other : ℕ)
      → next_user last t.users ≡ some (name, other)
      → (other == client) ≡ true
      → tell client message last after (go_to (telling message last after) t)
        ≡ go_to (telling message (some name) after) t
  unfolding tell
  tell_self t last name other found self = rw (found, self, tell) refl

  tell_other :
      (t : Turn) (last : Option Bytes) (name : Bytes) (other : ℕ)
      → next_user last t.users ≡ some (name, other)
      → (other == client) ≡ false
      → tell client message last after (go_to (telling message last after) t)
        ≡ go_to (telling message (some name) after) (send_message other message t)
  unfolding tell send_message
  tell_other t last name other found else_one = rw (found, else_one, tell) refl

  -- The rounds of the loop for the entries that are left send what `broadcast` says.
  tell_rest :
      (t : Turn) (last : Option Bytes) (rest : Users)
      → IsSorted t.users
      → behind last t.users ≡ rest
      → continues (suc (length rest)) client (go_to (telling message last after) t)
        ≡ go_to (phase_after after) (record t { sent = t.sent ++ broadcast rest client message })
  unfolding continues proceed tell broadcast send_message
  tell_rest t last [] sorted e =
      rw (next_user-nil last t.users e, tell)
        (ap (λ l. go_to (phase_after after) (record t { sent = l })) (sym (append-nil t.sent)))
  tell_rest t last ((name, other) ∷ rest) sorted e =
      let next = behind-next last t.users name other rest sorted e in
      let found = next_user-cons last t.users (name, other) rest e in
      elim (Bool-cases (other == client)) [
        | inl self ↦
            ap (continues (suc (length rest)) client) (tell_self t last name other found self)
            ∙ tell_rest t (some name) rest sorted next
            ∙ ap (λ l. go_to (phase_after after) (record t { sent = t.sent ++ l })) (rw self refl)
        | inr else_one ↦
            ap (continues (suc (length rest)) client) (tell_other t last name other found else_one)
            ∙ tell_rest (send_message other message t) (some name) rest sorted next
            ∙ ap (λ l. go_to (phase_after after) (record t { sent = l }))
                (append_assoc t.sent ((other, message) ∷ []) (broadcast rest client message)
                  ∙ rw else_one refl)
      ]

module _ (options : Options) (h : 1 ≤ pos_part options.max_concurrent_clients) (r : Room)
    (reach : Reach options r) where
  register : IsRegister r.users r.sessions r.next
  register = (Reach-Inv h reach).register

  -- What a client says goes, where no other thread comes between until the loop of `broadcast` is over, to each
  -- other client that then stands in `users` once, and to nobody else. The loop takes a round for each user.
  pub said-received :
      (sender : ℕ) (heard : Heard)
      → (r.sessions sender).phase ≡ hearing heard
      → heard.timed_out ≡ false
      → (length heard.text == 0) ≡ false
      → is_list heard.text ≡ false
      → is_bye heard.text ≡ false
      → (client : ℕ)
      → ((continues (suc (suc (length r.users))) sender (turn_of r sender)).session.phase ≡ looping)
        × (received client (continues (suc (suc (length r.users))) sender (turn_of r sender)).sent
            ≡ received client r.sent
              ++ (if client == sender
                  then []
                  else if is_user client (lookup (r.sessions client).name r.users)
                  then said (r.sessions sender).name heard.text ∷ []
                  else []))
  unfolding continues proceed announce
  said-received sender heard e in_time some_text no_list no_bye client =
      let all : continues (suc (suc (length r.users))) sender (turn_of r sender)
          ≡ go_to looping (record (turn_of r sender) {
            sent = r.sent ++ broadcast r.users sender (said (r.sessions sender).name heard.text);
          }) =
        ap (λ p. continues (suc (length r.users)) sender (proceed sender p (turn_of r sender))) e
        ∙ rw (in_time, some_text, no_list, no_bye, answer)
            (tell_rest sender (said (r.sessions sender).name heard.text) then_looping
              (turn_of r sender) none r.users register.sorted refl) in
      (
        ap (λ t. t.session.phase) all,
        ap (λ t. received client t.sent) all
            ∙ received-append client r.sent _
            ∙ ap (λ l. received client r.sent ++ l)
                (received-broadcast client sender (r.sessions client).name
                  (said (r.sessions sender).name heard.text) r.users register.sorted
                  (λ other found.
                    let (online, same, below) = register.only other client found in same)),
      )

  -- Whatever other threads do between its rounds, a round of the loop of `broadcast` sends nothing, or the
  -- message to one other client, which is online at that time and whose thread still runs.
  pub told-online :
      (sender : ℕ) (message : Bytes) (last : Option Bytes) (after : After)
      → ((proceed sender (telling message last after) (turn_of r sender)).sent ≡ r.sent)
        ⊎ ((other : ℕ) × ((proceed sender (telling message last after) (turn_of r sender)).sent
              ≡ r.sent ++ ((other, message) ∷ []))
            × (other ≢ sender)
            × ((r.sessions other).is_online ≡ true)
            × (has_ended (r.sessions other).phase ≡ false))
  unfolding proceed tell send_message
  told-online sender message last after = elim (Option-cases (next_user last r.users)) [
    | inl done ↦ inl (rw (done, tell) refl)
    | inr ((name, other), found) ↦ elim (Bool-cases (other == sender)) [
      | inl self ↦ inl (rw (found, self, tell) refl)
      | inr else_one ↦
          let at_name = next_user-lookup last r.users name other register.sorted found in
          let (online, same, runs) = lookup-online options h r reach name other at_name in
          inr (
            other,
            rw (found, else_one, tell) refl,
            (λ e. ground (arith, e, else_one)),
            online,
            runs,
          )
    ]
  ]
