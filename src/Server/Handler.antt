-- ===== src/Server/Handler.antt =====
-- `handle_client` of task3/server.c, as the list of what it does to the world. What it hears from the
-- world (the message, the files, the results of `send`) is a parameter.
pub mod Laws
use pc_project_2024_mtr.Prelude.{
  ℕ, zero, suc, ◌-◌, ◌≡◌, ◌&&◌, length, Bool, true, false, List, [], ◌∷◌, ◌++◌, Option, none, some,
  get_elem?, if◌then◌else◌, take, drop,
}
use pc_project_2024_mtr.Prelude.Int.{ℤ, pos, negsuc, pos_part, leb_ℤ}
use pc_project_2024_mtr.Prelude.Text.{Bytes}
use pc_project_2024_mtr.Server.Songs.{song_count}

abbrev pub stream_chunk_size : ℕ
stream_chunk_size = 1024

-- `decrement_live` stands for `--(*ta->live_handlers_count)` under its mutex, `transmit` for the bytes
-- that `send` took.
pub data Effect : Type 0 where
  open_file : Bytes → Effect
  close_file : Effect
  transmit : Bytes → Effect
  close_socket : Effect
  decrement_live : Effect
  signal_finish : Effect
  free_argument : Effect

-- `received` is the result of `recv`, `number` what `atoi` reads in the buffer, `files` the contents of
-- the files that can be opened, and `send i b` the result of the i-th `send`, of the bytes `b`. A file
-- is read to its end, in full chunks: a read error ends it early.
pub record World : Type 0 where
  pub received : ℤ
  pub number : ℤ
  pub files : Bytes → Option Bytes
  pub send : ℕ → Bytes → ℤ

-- The macro `close_client`
abbrev pub close_client : List Effect
close_client = close_socket ∷ decrement_live ∷ signal_finish ∷ free_argument ∷ []

-- The loop that streams the rest of a file; `i` calls of `send` have been made. One unit of fuel is a
-- round, and one is left for the end of the file.
unfoldable pub stream : World → ℕ → ℕ → Bytes → List Effect
stream world zero i rest = []
stream world (suc fuel) i [] = close_file ∷ close_client
stream world (suc fuel) i (b ∷ rest) =
    let buffer = take stream_chunk_size (b ∷ rest) in
    elim (world.send i buffer) [
      | pos num_sent ↦
          transmit (take num_sent buffer)
          ∷ stream world fuel (suc i) (drop stream_chunk_size (b ∷ rest))
      | negsuc _ ↦ close_file ∷ close_client
    ]

-- From the song's path on.
unfoldable pub serve : World → Bytes → List Effect
unfolding stream
serve world path = elim (world.files path) [
  | none ↦ close_client
  | some file ↦ open_file path ∷ stream world (suc (length file)) 0 file
]

-- `handle_client`, with the paths of the songs. A path that is not there would be a read out of bounds:
-- `none`.
unfoldable pub handle_client : World → List Bytes → Option (List Effect)
unfolding serve
handle_client world song_paths =
    if leb_ℤ world.received (pos 0)
    then some close_client
    else if leb_ℤ (pos 1) world.number && leb_ℤ world.number (pos song_count)
    then elim (get_elem? song_paths (pos_part world.number - 1)) [
      | none ↦ none
      | some path ↦ some (serve world path)
    ]
    else some close_client
