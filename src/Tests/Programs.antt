-- ===== src/Tests/Programs.antt =====
-- The theorems on the programs around the pool, at concrete inputs.
use pc_project_2024_mtr.Prelude.{
  ℕ, zero, suc, ◌+◌, ◌*◌, ◌^◌, ◌≤◌, ◌<◌, ◌≡◌, refl, sym, ◌⊎◌, true, false, List, [], ◌∷◌, ◌++◌, map,
  some, arith, ok, exit, fault, Error, length, take, get_elem?, leb, if◌then◌else◌, replicate,
}
use pc_project_2024_mtr.Prelude.Int.{ℤ, pos}
use pc_project_2024_mtr.Matrix.{Matrix}
use pc_project_2024_mtr.Product.{multiply}
use pc_project_2024_mtr.Operand.{init_operand}
use pc_project_2024_mtr.Operand.Bounds.{abs, IsSmall, AreOperands, init_operand_lem, multiply_bound}
use pc_project_2024_mtr.Race.{
  State, Step, lock, load, store, unlock, leave, Reach, start, later, IsJoined,
}
use pc_project_2024_mtr.Race.Count.{increments_all_count, always_progress}
use pc_project_2024_mtr.Prelude.Text.{Bytes, codes}
use pc_project_2024_mtr.Server.Songs.{mp3, join, song_count, get_song_paths_from_dir}
use pc_project_2024_mtr.Server.Songs.Copy.{copy_path, copy_path_lem}
use pc_project_2024_mtr.Server.Songs.Laws.{AreSongs, get_song_paths_lem}
use pc_project_2024_mtr.Server.Handler.{Effect, World, handle_client, serve}
use pc_project_2024_mtr.Server.Handler.Laws.{
  IsClosed, delivered, handle_client-IsClosed, serve-delivers, serve-loses,
}
use pc_project_2024_mtr.Server.Player.Session.{player_main, song_of, session_lem}
use pc_project_2024_mtr.Chat.Terminal.{newline}
use pc_project_2024_mtr.Server.Accept as Accepting
use pc_project_2024_mtr.Server.Accept.{
  Server, Main, max_concurrent_clients, enter, find_place, allocate, connect, count, spawn,
  interrupt, finish, release, break, listening,
}
use pc_project_2024_mtr.Server.Accept.Limit.{counted, handlers_bound, arguments_bound}
use pc_project_2024_mtr.Tests.Runs.{row_matrix, col_matrix, raw_matrix}
use pc_project_2024_mtr.Tests.Witnesses.{small_fit}

row-IsSmall : IsSmall 5 row_matrix.cells
row-IsSmall zero = omega arith
row-IsSmall (suc zero) = omega arith
row-IsSmall (suc (suc j)) = omega arith

col-IsSmall : IsSmall 5 col_matrix.cells
col-IsSmall zero = omega arith
col-IsSmall (suc zero) = omega arith
col-IsSmall (suc (suc j)) = omega arith

multiply_bound_example :
    (p : Matrix) × (multiply row_matrix col_matrix raw_matrix ≡ ok p)
    × ((j : ℕ) → j < p.rows * p.cols → (v : ℤ) × (get_elem? p.cells j ≡ some v) × (abs v < 2 ^ 63))
multiply_bound_example =
    multiply_bound row_matrix col_matrix raw_matrix small_fit row-IsSmall col-IsSmall (omega arith)

init_operand_lem_example :
    (after : List Matrix) × (init_operand (λ call. 7 * call + 3) 0 (raw_matrix ∷ row_matrix ∷ [])
      ≡ ok after)
    × AreOperands (raw_matrix ∷ row_matrix ∷ []) after
init_operand_lem_example =
    init_operand_lem (λ call. 7 * call + 3) 0 (raw_matrix ∷ row_matrix ∷ []) (refl, (refl, tt))

abbrev entries : List Bytes
entries = (b'.' ∷ []) ∷ (b'a' ∷ mp3) ∷ (b'b' ∷ mp3) ∷ mp3 ∷ (b'c' ∷ mp3) ∷ []

get_song_paths_lem_example :
    (names : List Bytes) × AreSongs entries names
    × (get_song_paths_from_dir (some entries) (b'.' ∷ []) ≡ (
        if leb song_count (length names)
        then ok (map (join (b'.' ∷ [])) (take song_count names))
        else exit Error.few_songs))
get_song_paths_lem_example = get_song_paths_lem entries (b'.' ∷ [])

abbrev song : Bytes
song = replicate 1500 7

-- A client that asks for song 2, and a `send` that takes all.
abbrev good_world : World
good_world = record {
  received = pos 2;
  number = pos 2;
  files = λ path. some song;
  send = λ i b. pos (length b);
}

-- A `send` that takes 1000 bytes at the most.
abbrev slow_world : World
slow_world = record {
  received = pos 2;
  number = pos 2;
  files = λ path. some song;
  send = λ i b. pos 1000;
}

handle_client-IsClosed_example :
    (es : List Effect) × (handle_client good_world (mp3 ∷ mp3 ∷ mp3 ∷ []) ≡ some es) × IsClosed 0 es
handle_client-IsClosed_example = handle_client-IsClosed good_world (mp3 ∷ mp3 ∷ mp3 ∷ []) refl

song_sent : delivered (serve good_world mp3) ≡ song
song_sent = serve-delivers good_world mp3 song refl (λ i b. refl)

serve-loses_example : length (delivered (serve slow_world mp3)) < length song
serve-loses_example = serve-loses slow_world mp3 song 1000 refl refl (omega arith)

session_lem_example :
    player_main true
      (λ _. true)
      (codes "2" ++ (newline ∷ []))
      true
      (λ i b. length b)
      (map some (replicate 1000 7 ∷ replicate 500 7 ∷ []) ++ (some [] ∷ []))
    ≡ ok (codes "2" ++ (newline ∷ []), song_of good_world.files (mp3 ∷ mp3 ∷ mp3 ∷ []) (pos 2))
unfolding handle_client
session_lem_example =
    session_lem good_world (mp3 ∷ mp3 ∷ mp3 ∷ []) (serve good_world mp3) (λ _. pos 2) (codes "2") []
      (omega arith) refl refl (λ i b. refl) refl (λ _. true) refl (λ i b. length b) (λ i b. refl)
      (replicate 1000 7 ∷ replicate 500 7 ∷ [])
      (omega arith, omega arith, (omega arith, omega arith, tt)) (sym song_sent)

copy_path_lem_example :
    copy_path true (b'.' ∷ []) (b'a' ∷ mp3)
    ≡ (if true then ok (map some (join (b'.' ∷ []) (b'a' ∷ mp3) ++ (0 ∷ []))) else fault)
copy_path_lem_example = copy_path_lem true (b'.' ∷ []) (b'a' ∷ mp3)

-- One increment by each of the two threads; the second locks before the first has returned.
abbrev race_run : (s : State) × Reach 1 10 s
race_run = (
  _,
  later
      (later
        (later
          (later
            (later
              (later
                (later
                  (later
                    (later (later start (lock 0 {i = 0} (omega arith) refl (omega arith) refl))
                      (load 0 {i = 0} (omega arith) refl))
                    (store 0 {i = 0} {value = 0} (omega arith) refl))
                  (unlock 0 {i = 0} (omega arith) refl))
                (lock 1 {i = 0} (omega arith) refl (omega arith) refl))
              (leave 0 {i = 1} (omega arith) refl (omega arith)))
            (load 1 {i = 0} (omega arith) refl))
          (store 1 {i = 0} {value = 1} (omega arith) refl))
        (unlock 1 {i = 0} (omega arith) refl))
      (leave 1 {i = 1} (omega arith) refl (omega arith)),
)

race-IsJoined : IsJoined race_run.0
race-IsJoined zero h = refl
race-IsJoined (suc zero) h = refl
race-IsJoined (suc (suc k)) h = absurd (omega arith)

increments_all_count_example :
    (race_run.0.counter ≡ 2 * 1) × (race_run.0.overflowed ≡ false) × (10 ≡ 8 * 1 + 2)
increments_all_count_example =
    increments_all_count 1 10 race_run.0 (omega arith) race_run.1 race-IsJoined

always_progress_example :
    (10 ≤ 8 * 1 + 2) × (IsJoined race_run.0 ⊎ ((t : State) × Step 1 race_run.0 t))
always_progress_example = always_progress 1 10 race_run.0 race_run.1

-- One client is served, and the server is stopped while it waits for the next one.
abbrev server_run : (s : Server) × Accepting.Reach s
server_run = (
  _,
  Accepting.later
      (Accepting.later
        (Accepting.later
          (Accepting.later
            (Accepting.later
              (Accepting.later
                (Accepting.later
                  (Accepting.later (Accepting.later Accepting.start (enter refl refl))
                    (find_place refl (omega arith)))
                  (allocate refl))
                (connect refl refl))
              (count refl))
            (spawn refl))
          (enter refl refl))
        (find_place refl (omega arith)))
      (allocate refl),
)

abbrev stopped_run : (s : Server) × Accepting.Reach s
stopped_run = (
  _,
  Accepting.later
      (Accepting.later
        (Accepting.later (Accepting.later server_run.1 (finish {live = 0} {serving = 0} refl refl))
          (release {closing = 0} {arguments = 1} refl refl))
        interrupt)
      (break refl refl),
)

handlers_bound_example :
    (server_run.0.serving ≤ max_concurrent_clients)
    × (server_run.0.live ≡ server_run.0.serving + counted server_run.0.main + server_run.0.failed)
    × (server_run.0.live ≤ max_concurrent_clients)
handlers_bound_example = handlers_bound server_run.0 server_run.1

arguments_bound_example : stopped_run.0.arguments ≤ stopped_run.0.failed + 1
arguments_bound_example = arguments_bound stopped_run.0 stopped_run.1 refl refl refl
