-- ===== src/Sockets/Defaults.antt =====
-- The servers and clients of task3 and hw where they are started without arguments.
use pc_project_2024_mtr.Prelude.{
  ℕ, ◌≡◌, ap, ◌∙◌, Bool, true, List, [], ◌∷◌, Option, Outcome, ok, exit, Error, ◌>>=◌, ok-injective,
  arith, sym,
}
use pc_project_2024_mtr.Prelude.Int.{ℤ, pos}
use pc_project_2024_mtr.Prelude.Text.{Bytes}
use pc_project_2024_mtr.Arguments.{number_at}
use pc_project_2024_mtr.Server.Songs.{set_options}
use pc_project_2024_mtr.Chat.Settings as Settings
use pc_project_2024_mtr.Chat.Settings.{make_options, number_or}
use pc_project_2024_mtr.Sockets.{
  Answers, Listener, port_number, open_song_server, open_chat_server, create_socket,
  connect_to_server, reaches,
}

-- `main` of hw/client.cpp up to its connection; `argv` has `argc` entries.
unfoldable pub connect_chat : (Bytes → ℤ) → List Bytes → Bool → (ℕ → Bool) → Outcome ℕ
connect_chat atoi argv has_socket connects = do
  _ ← create_socket has_socket
  connect_to_server connects (number_at atoi argv 1 (pos 8080))

-- `main` of task3/client.c up to its connection.
unfoldable pub connect_player : Bool → (ℕ → Bool) → Outcome ℕ
connect_player has_socket connects = do
  _ ← create_socket has_socket
  connect_to_server connects (pos 3000)

song_port :
    (answers : Answers) (port : ℤ) (listener : Listener)
    → open_song_server answers port ≡ ok listener
    → listener.port ≡ port_number port
unfolding open_song_server
song_port answers port listener e = ground arith

chat_port :
    (answers : Answers) (port max : ℤ) (listener : Listener)
    → open_chat_server answers port max ≡ ok listener
    → listener.port ≡ port_number port
unfolding open_chat_server
chat_port answers port max listener e = ground arith

default_port :
    (stoi : Bytes → Option ℤ) (program : Bytes) (o : Settings.Options)
    → make_options stoi (program ∷ []) ≡ ok o
    → o.port ≡ pos 8000
unfolding make_options
default_port stoi program o e = ap (λ s. s.port) (sym (ok-injective _ o e))

-- Where all four programs are started without arguments and both servers come to listen, the player connects
-- to the song server at its port, and the chat client finds no server at the port that it asks for.
pub defaults_lem :
    (stoi : Bytes → Option ℤ) (atoi : Bytes → ℤ) (program : Bytes) (o : Settings.Options)
    → make_options stoi (program ∷ []) ≡ ok o
    → (songs chats : Answers) (song_listener chat_listener : Listener)
    → open_song_server songs (set_options atoi (program ∷ [])).port ≡ ok song_listener
    → open_chat_server chats o.port o.max_concurrent_clients ≡ ok chat_listener
    → (connect_player true (reaches song_listener) ≡ ok 3000)
      × (connect_chat atoi (program ∷ []) true (reaches chat_listener) ≡ exit Error.not_connected)
unfolding connect_player connect_chat create_socket connect_to_server port_number set_options
defaults_lem stoi atoi program o made songs chats song_listener chat_listener sings chatting =
    let song : song_listener.port ≡ 3000 = song_port songs (pos 3000) song_listener sings in
    let chat : chat_listener.port ≡ 8000 =
      chat_port chats o.port o.max_concurrent_clients chat_listener chatting
      ∙ ap port_number (default_port stoi program o made) in
    (rw song, rw chat)
