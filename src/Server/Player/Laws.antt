-- ===== src/Server/Player/Laws.antt =====
-- A song on its way from `handle_client` of task3/server.c to the player of task3/client.c.
use pc_project_2024_mtr.Prelude.{
  ℕ, suc, ◌≤◌, ◌<◌, ◌≡◌, refl, ◌∙◌, ap, true, false, List, [], ◌∷◌, ◌++◌, map, Option, none, some,
  neb, length, ok, exit, Error, arith,
}
use pc_project_2024_mtr.Prelude.Int.{pos}
use pc_project_2024_mtr.Prelude.Text.{Bytes}
use pc_project_2024_mtr.Server.Handler.{World, serve}
use pc_project_2024_mtr.Server.Handler.Laws.{delivered, serve-delivers}
use pc_project_2024_mtr.Server.Player.{player_buffer_size, play, play_streamed_mp3}

-- The pieces in which a stream arrives: none is empty, and each fits in the buffer.
abbrev pub joined : List Bytes → Bytes
joined [] = []
joined (piece ∷ pieces) = piece ++ joined pieces

abbrev pub ArePieces : List Bytes → Type 0
ArePieces [] = Unit
ArePieces (piece ∷ pieces) =
    (0 < length piece) × (length piece ≤ player_buffer_size) × ArePieces pieces

pub play_lem :
    (fwrite : ℕ → Bytes → ℕ) (i : ℕ) (pieces : List Bytes) (received : List (Option Bytes))
    → ((j : ℕ) (b : Bytes) → fwrite j b ≡ length b)
    → ArePieces pieces
    → play fwrite i (map some pieces ++ (some [] ∷ received)) ≡ ok (joined pieces)
unfolding play
play_lem fwrite i [] received all h = refl
play_lem fwrite i ([] ∷ pieces) received all h = absurd (omega arith)
play_lem fwrite i ((byte ∷ bytes) ∷ pieces) received all h =
    let whole : neb (fwrite i (byte ∷ bytes)) (length (byte ∷ bytes)) ≡ false =
      rw (all i (byte ∷ bytes)) (ground arith) in
    rw (whole, play_lem fwrite (suc i) pieces received all h.2) refl

-- The player gets the song that was asked for, byte for byte, in whatever pieces the network cuts the stream,
-- where every `send` and every `fwrite` takes all that it is given and the connection is then closed.
pub song-arrives :
    (world : World) (path file : Bytes) (fwrite : ℕ → Bytes → ℕ) (pieces : List Bytes)
    (received : List (Option Bytes))
    → world.files path ≡ some file
    → ((i : ℕ) (b : Bytes) → world.send i b ≡ pos (length b))
    → ((i : ℕ) (b : Bytes) → fwrite i b ≡ length b)
    → ArePieces pieces
    → joined pieces ≡ delivered (serve world path)
    → play_streamed_mp3 true fwrite (map some pieces ++ (some [] ∷ received)) ≡ ok file
unfolding play_streamed_mp3
song-arrives world path file fwrite pieces received found sends writes cut whole =
    play_lem fwrite 0 pieces received writes cut
    ∙ ap ok (whole ∙ serve-delivers world path file found sends)

-- A connection that breaks in the middle of the song ends the client with an error, whatever it has received
-- before.
pub play-lost :
    (fwrite : ℕ → Bytes → ℕ) (i : ℕ) (pieces : List Bytes) (received : List (Option Bytes))
    → ((j : ℕ) (b : Bytes) → fwrite j b ≡ length b)
    → ArePieces pieces
    → play fwrite i (map some pieces ++ (none ∷ received)) ≡ exit Error.lost_connection
unfolding play
play-lost fwrite i [] received all h = refl
play-lost fwrite i ([] ∷ pieces) received all h = absurd (omega arith)
play-lost fwrite i ((byte ∷ bytes) ∷ pieces) received all h =
    let whole : neb (fwrite i (byte ∷ bytes)) (length (byte ∷ bytes)) ≡ false =
      rw (all i (byte ∷ bytes)) (ground arith) in
    rw (whole, play-lost fwrite (suc i) pieces received all h.2) refl
