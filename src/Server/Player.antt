-- ===== src/Server/Player.antt =====
-- `send_request` and `play_streamed_mp3` of task3/client.c: the client of the song server.
pub mod Laws
pub mod Session
use pc_project_2024_mtr.Prelude.{
  ℕ, suc, ◌≡◌, Bool, true, false, List, [], ◌∷◌, ◌++◌, Option, none, some, neb, if◌then◌else◌,
  length, Outcome, ok, exit, ◌>>=◌, Error,
}
use pc_project_2024_mtr.Prelude.Text.{Bytes}

-- `sizeof(buffer)`
abbrev pub player_buffer_size : ℕ
player_buffer_size = 4096

-- The loop of `play_streamed_mp3`, with what goes into the pipe. `recv` gives an error, no byte at the end of
-- the stream, or at most `player_buffer_size` bytes; `fwrite i b` is the result of the i-th `fwrite`, of the
-- bytes `b`. The list ends where the calls of `recv` that are looked at end.
unfoldable pub play : (ℕ → Bytes → ℕ) → ℕ → List (Option Bytes) → Outcome Bytes
play fwrite i [] = ok []
play fwrite i (none ∷ received) = exit Error.lost_connection
play fwrite i (some [] ∷ received) = ok []
play fwrite i (some (byte ∷ bytes) ∷ received) =
    let rest = play fwrite (suc i) received in
    if neb (fwrite i (byte ∷ bytes)) (length (byte ∷ bytes))
    then exit Error.broken_pipe
    else rest >>= λ played. ok ((byte ∷ bytes) ++ played)

-- `play_streamed_mp3`, where `popen` opens the pipe or does not.
unfoldable pub play_streamed_mp3 : Bool → (ℕ → Bytes → ℕ) → List (Option Bytes) → Outcome Bytes
unfolding play
play_streamed_mp3 false fwrite received = exit Error.no_player
play_streamed_mp3 true fwrite received = play fwrite 0 received
