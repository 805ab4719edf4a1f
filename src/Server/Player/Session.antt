-- ===== src/Server/Player/Session.antt =====
-- `main` of task3/client.c from the connection on, and its session with `handle_client` of task3/server.c.
use pc_project_2024_mtr.Prelude.{
  ℕ, zero, suc, ◌-◌, ◌<◌, ◌≡◌, refl, sym, ap, ◌∙◌, Bool, true, false, List, [], ◌∷◌, ◌++◌, map,
  Option, none, some, Option-cases, inl, inr, Bool-cases, length, length-append, ltb, if◌then◌else◌,
  get_elem?, Outcome, ok, fault, ◌>>=◌, arith, ◌&&◌,
}
use mathlib.Core.Option.{some-injective}
use pc_project_2024_mtr.Prelude.Int.{ℤ, pos, negsuc, leb_ℤ}
use pc_project_2024_mtr.Prelude.Text.{Bytes}
use pc_project_2024_mtr.Chat.Terminal.{fgets, newline}
use pc_project_2024_mtr.Chat.Terminal.Lines.{IsLine, fgets_lem}
use pc_project_2024_mtr.Server.Songs.{song_count}
use pc_project_2024_mtr.Server.Handler.{World, Effect, handle_client, serve, close_client}
use pc_project_2024_mtr.Server.Handler.Laws.{delivered, serve-delivers}
use pc_project_2024_mtr.Server.Player.{play_streamed_mp3}
use pc_project_2024_mtr.Server.Player.Laws.{joined, ArePieces, play_lem}
use pc_project_2024_mtr.Sockets.{port_number, create_socket, connect_to_server}
use pc_project_2024_mtr.Sockets.Defaults.{connect_player}

-- `fgets(command, sizeof(command), stdin)`, of 1024 bytes as in hw/client.cpp. At the end of the input
-- `command` stays uninitialised, and `strlen` reads it.
unfoldable pub read_command : Bytes → Outcome Bytes
unfolding fgets
read_command [] = fault
read_command (byte ∷ input) = ok (fgets [] (byte ∷ input)).0

-- `main`: what it sends by `send_request`, and what it plays. The result of that `send` is not looked at.
unfoldable pub player_main :
    Bool
    → (ℕ → Bool)
    → Bytes
    → Bool
    → (ℕ → Bytes → ℕ)
    → List (Option Bytes)
    → Outcome (Bytes × Bytes)
unfolding read_command
player_main has_socket connects input opened fwrite received = do
  _ ← connect_player has_socket connects
  command ← read_command input
  played ← play_streamed_mp3 opened fwrite received
  ok (command, played)

-- The song with this number, counted from 1, or nothing if there is none or it cannot be opened.
abbrev pub song_of : (Bytes → Option Bytes) → List Bytes → ℤ → Bytes
song_of files paths (pos (suc i)) =
    if ltb i song_count
    then elim (get_elem? paths i) [
      | none ↦ []
      | some path ↦ elim (files path) [ none ↦ [] | some file ↦ file ]
    ]
    else []
song_of files paths _ = []

serve_lem :
    (world : World) (path : Bytes)
    → ((i : ℕ) (b : Bytes) → world.send i b ≡ pos (length b))
    → delivered (serve world path) ≡ elim (world.files path) [ none ↦ [] | some file ↦ file ]
unfolding serve
serve_lem world path sends = elim (Option-cases (world.files path)) [
  | inl e ↦ rw (e, serve) refl
  | inr (file, e) ↦ serve-delivers world path file e sends ∙ rw e
]

module _ (world : World) (song_paths : List Bytes) (es : List Effect)
    (some_bytes : leb_ℤ world.received (pos 0) ≡ false)
    (handled : handle_client world song_paths ≡ some es) where
  -- A number that is out of range.
  refused :
      (leb_ℤ (pos 1) world.number && leb_ℤ world.number (pos song_count)) ≡ false
      → delivered es ≡ []
  unfolding handle_client
  refused out =
      let handled' : some close_client ≡ some es = rw (some_bytes, out) at handled in
      ap delivered (sym (some-injective _ _ handled'))

  served :
      (i : ℕ) (path : Bytes)
      → world.number ≡ pos (suc i)
      → i < song_count
      → get_elem? song_paths i ≡ some path
      → delivered es ≡ delivered (serve world path)
  unfolding handle_client
  served i path e h found =
      let low : leb_ℤ (pos 1) (pos (suc i)) ≡ true = ground arith in
      let high : leb_ℤ (pos (suc i)) (pos song_count) ≡ true = ground arith in
      let there : get_elem? song_paths (suc i - 1) ≡ some path =
        ap (get_elem? song_paths) (omega arith) ∙ found in
      let handled' : some (serve world path) ≡ some es =
        rw (some_bytes, e, low, high, there) at handled in
      ap delivered (sym (some-injective _ _ handled'))

  no_path :
      (i : ℕ) → world.number ≡ pos (suc i) → i < song_count → get_elem? song_paths i ≡ none → ⊥
  unfolding handle_client
  no_path i e h missing =
      let low : leb_ℤ (pos 1) (pos (suc i)) ≡ true = ground arith in
      let high : leb_ℤ (pos (suc i)) (pos song_count) ≡ true = ground arith in
      let there : get_elem? song_paths (suc i - 1) ≡ none =
        ap (get_elem? song_paths) (omega arith) ∙ missing in
      let handled' : none ≡ some es = rw (some_bytes, e, low, high, there) at handled in cc

  handle_client_lem :
      (number : ℤ)
      → world.number ≡ number
      → ((i : ℕ) (b : Bytes) → world.send i b ≡ pos (length b))
      → delivered es ≡ song_of world.files song_paths number
  handle_client_lem (pos zero) e sends = refused (rw e refl)
  handle_client_lem (negsuc n) e sends = refused (rw e (ground arith))
  handle_client_lem (pos (suc i)) e sends = elim (Bool-cases (ltb i song_count)) [
    | inr out ↦
        let high : leb_ℤ (pos (suc i)) (pos song_count) ≡ false = ground arith in
        refused (rw (e, high) (ground arith)) ∙ rw out refl
    | inl inside ↦ elim (Option-cases (get_elem? song_paths i)) [
      | inl missing ↦ absurd (no_path i e (ground arith) missing)
      | inr (path, found) ↦
          served i path e (ground arith) found
          ∙ serve_lem world path sends
          ∙ rw (inside, found) refl
    ]
  ]

read_command_lem :
    (line rest : Bytes)
    → IsLine line
    → read_command (line ++ (newline ∷ rest)) ≡ ok (line ++ (newline ∷ []))
unfolding read_command
read_command_lem [] rest h = ap (λ r. ok r.0) (fgets_lem [] [] rest h)
read_command_lem (byte ∷ line) rest h = ap (λ r. ok r.0) (fgets_lem [] (byte ∷ line) rest h)

-- A line that fits is typed at the player, `handle_client` gets it in one piece and reads its number, every
-- `send` and `fwrite` takes all that it is given, the connection is closed behind what the handler has sent
-- and cuts it in whatever pieces: the player sends the line and plays the song with that number, byte for
-- byte, or nothing where there is no such song.
pub session_lem :
    (world : World) (song_paths : List Bytes) (es : List Effect) (atoi : Bytes → ℤ)
    (line rest : Bytes)
    → IsLine line
    → world.received ≡ pos (length (line ++ (newline ∷ [])))
    → world.number ≡ atoi (line ++ (newline ∷ []))
    → ((i : ℕ) (b : Bytes) → world.send i b ≡ pos (length b))
    → handle_client world song_paths ≡ some es
    → (connects : ℕ → Bool) → connects 3000 ≡ true
    → (fwrite : ℕ → Bytes → ℕ) → ((i : ℕ) (b : Bytes) → fwrite i b ≡ length b)
    → (pieces : List Bytes) → ArePieces pieces
    → joined pieces ≡ delivered es
    → player_main true connects
        (line ++ (newline ∷ rest))
        true
        fwrite
        (map some pieces ++ (some [] ∷ []))
      ≡ ok (line ++ (newline ∷ []), song_of world.files song_paths (atoi (line ++ (newline ∷ []))))
unfolding player_main connect_player create_socket connect_to_server port_number play_streamed_mp3
session_lem world song_paths es atoi line rest typing receives reads sends handled connects
      reachable fwrite writes pieces cut whole =
    let some_bytes : leb_ℤ world.received (pos 0) ≡ false =
      rw receives (ground (arith, length-append line (newline ∷ []))) in
    rw
      (
        reachable,
        read_command_lem line rest typing,
        play_lem fwrite 0 pieces [] writes cut,
        whole,
        handle_client_lem world song_paths es some_bytes handled _ reads sends,
      )
      refl
