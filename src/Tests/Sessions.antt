-- ===== src/Tests/Sessions.antt =====
-- The theorems on the sockets and on a session of the chat client, at concrete inputs.
use pc_project_2024_mtr.Prelude.{
  ◌≡◌, refl, true, [], ◌∷◌, ◌++◌, List, some, none, arith, ok, exit, Error,
}
use pc_project_2024_mtr.Prelude.Int.{pos, negsuc, ◌*ℤ◌}
use pc_project_2024_mtr.Prelude.Text.{Bytes, codes}
use pc_project_2024_mtr.Chat.Settings.{make_options, number_or}
use pc_project_2024_mtr.Chat.Terminal.{set_user_name, read_and_sanitize_user_input}
use pc_project_2024_mtr.Chat.Terminal.Lines.{typed}
use pc_project_2024_mtr.Chat.Terminal.System.{
  Client, Reach, start, later, name, start_incoming, leave_incoming, start_outgoing, leave_outgoing,
  enter_incoming, enter_outgoing, hear, set_close_chat, say, finish,
}
use pc_project_2024_mtr.Chat.Terminal.System.Laws.{ended_lem}
use pc_project_2024_mtr.Sockets.{
  Answers, Listener, localhost, any_address, port_number, reaches, open_song_server,
  open_chat_server, init, bind, listen,
}
use pc_project_2024_mtr.Server.Songs.{set_options}
use pc_project_2024_mtr.Sockets.Trial.{
  trial_port, greeting, serve_trial, run_trial_client, trial_prints,
}
use pc_project_2024_mtr.Sockets.Defaults.{connect_player, connect_chat, defaults_lem}

abbrev willing : Answers
willing = record { has_socket = true; binds = λ a p. true; listens = λ b. true }

trial_prints_example :
    run_trial_client true
      (reaches (record { address = any_address; port = port_number trial_port; backlog = pos 5 }))
      (some (codes "Hello"))
    ≡ ok (codes "Hello")
unfolding serve_trial
trial_prints_example =
    trial_prints willing true
      (record { address = any_address; port = port_number trial_port; backlog = pos 5 }) greeting
      (codes "Hello") (codes " World!") refl refl

abbrev song_listener : Listener
song_listener = record { address = localhost; port = 3000; backlog = pos 32 }

abbrev chat_listener : Listener
chat_listener = record { address = localhost; port = 8000; backlog = pos 32 }

defaults_lem_example :
    (connect_player true (reaches song_listener) ≡ ok 3000)
    × (connect_chat (λ _. pos 0) (codes "x" ∷ []) true (reaches chat_listener)
        ≡ exit Error.not_connected)
unfolding make_options number_or open_song_server open_chat_server init bind listen port_number
    set_options ◌*ℤ◌
defaults_lem_example =
    defaults_lem (λ _. none) (λ _. pos 0) (codes "x")
      (record { port = pos 8000; max_concurrent_clients = pos 16; timeout = negsuc 0 }) refl willing
      willing song_listener chat_listener refl refl

abbrev reads : List Bytes
reads = codes "hello" ∷ codes "hi" ∷ [] ∷ []

abbrev input : Bytes
input = typed (codes "eve" ∷ codes "ho" ∷ []) []

record Ended : Type 0 where
  last : Client
  reach : Reach reads input last

-- Each thread looks for its socket before `main` has left the function that starts it.
session : Ended
unfolding set_user_name read_and_sanitize_user_input
session = record {
  last = _;
  reach =
      later
        (later
          (later
            (later
              (later
                (later
                  (later
                    (later
                      (later (later (later start (name refl refl refl)) (start_incoming refl))
                        (enter_incoming refl refl))
                      (leave_incoming refl))
                    (start_outgoing refl))
                  (enter_outgoing refl refl))
                (leave_outgoing refl))
              (say (λ x. cc) refl refl))
            (hear (λ x. cc) refl refl refl refl))
          (set_close_chat (λ x. cc) refl refl refl))
        (finish refl refl);
}

ended_lem_example :
    (session.last.printed ≡ codes "hello" ∷ codes "hi" ∷ [])
    × ((said : List Bytes) × (unsaid : List Bytes) × (codes "ho" ∷ [] ≡ said ++ unsaid)
        × (session.last.sent ≡ codes "eve" ∷ said))
unfolding session
ended_lem_example =
    ended_lem (codes "hello") (codes "hi" ∷ []) [] (codes "eve") (codes "ho" ∷ []) (omega arith)
      (omega arith) (omega arith) (omega arith) session.last session.reach refl
