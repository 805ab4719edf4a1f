-- ===== src/Server/Handler/Laws.antt =====
-- What `handle_client` of task3/server.c does on every path, and what reaches the client.
use pc_project_2024_mtr.Prelude.{
  take-length, length-take-le, length-append, ap, ◌∙◌, sym, ℕ, zero, suc, ◌+◌, ◌-◌, ◌≤◌, ◌<◌, ◌≡◌,
  refl, ◌&&◌, true, List, [], ◌∷◌, ◌++◌, some, length, get_elem?, arith, Bool-cases, inl, inr, take,
  drop, take-append-drop, length-drop, Option-cases, get_or, get_elem?-eq-get_or,
}
use pc_project_2024_mtr.Prelude.Int.{ℤ-cases, ℤ, pos, negsuc, pos_part, leb_ℤ}
use pc_project_2024_mtr.Prelude.Text.{Bytes}
use pc_project_2024_mtr.Server.Songs.{song_count}
use pc_project_2024_mtr.Server.Handler.{
  Effect, open_file, close_file, transmit, close_socket, decrement_live, free_argument, World,
  stream_chunk_size, close_client, stream, serve, handle_client,
}

abbrev pub opens : List Effect → ℕ
opens [] = 0
opens (open_file p ∷ es) = suc (opens es)
opens (_ ∷ es) = opens es

abbrev pub closes : List Effect → ℕ
closes [] = 0
closes (close_file ∷ es) = suc (closes es)
closes (_ ∷ es) = closes es

abbrev pub sockets : List Effect → ℕ
sockets [] = 0
sockets (close_socket ∷ es) = suc (sockets es)
sockets (_ ∷ es) = sockets es

abbrev pub decrements : List Effect → ℕ
decrements [] = 0
decrements (decrement_live ∷ es) = suc (decrements es)
decrements (_ ∷ es) = decrements es

abbrev pub frees : List Effect → ℕ
frees [] = 0
frees (free_argument ∷ es) = suc (frees es)
frees (_ ∷ es) = frees es

-- The bytes that go to the client.
abbrev pub delivered : List Effect → Bytes
delivered [] = []
delivered (transmit b ∷ es) = b ++ delivered es
delivered (_ ∷ es) = delivered es

-- The handler's duties are done once each, and files are closed as often as opened.
pub record IsClosed (files : ℕ) (es : List Effect) : Type 0 where
  pub socket : sockets es ≡ 1
  pub live : decrements es ≡ 1
  pub argument : frees es ≡ 1
  pub balance : closes es ≡ files + opens es

IsClosed-transmit :
    {files : ℕ} {es : List Effect} (b : Bytes)
    → IsClosed files es
    → IsClosed files (transmit b ∷ es)
IsClosed-transmit b c = record {
  socket = c.socket;
  live = c.live;
  argument = c.argument;
  balance = c.balance;
}

stream-IsClosed :
    (world : World) (fuel i : ℕ) (rest : Bytes)
    → length rest < fuel
    → IsClosed 1 (stream world fuel i rest)
unfolding stream
stream-IsClosed world zero i rest h = absurd (omega arith)
stream-IsClosed world (suc fuel) i [] h = omega arith
stream-IsClosed world (suc fuel) i (b ∷ rest) h =
    elim (ℤ-cases (world.send i (take stream_chunk_size (b ∷ rest)))) [
      | inl (n, e) ↦
          rw (e, stream)
            (IsClosed-transmit _ (
              stream-IsClosed world fuel (suc i) (drop stream_chunk_size (b ∷ rest))
                (omega (arith, h, length-drop stream_chunk_size (b ∷ rest)))))
      | inr (n, e) ↦ rw (e, stream) (omega arith)
    ]

stream-delivers :
    (world : World)
    → ((i : ℕ) (b : Bytes) → world.send i b ≡ pos (length b))
    → (fuel i : ℕ) (rest : Bytes) → length rest < fuel
    → delivered (stream world fuel i rest) ≡ rest
unfolding stream
stream-delivers world all zero i rest h = absurd (omega arith)
stream-delivers world all (suc fuel) i [] h = refl
stream-delivers world all (suc fuel) i (b ∷ rest) h =
    let buffer = take stream_chunk_size (b ∷ rest) in
    let left = drop stream_chunk_size (b ∷ rest) in
    rw (all i buffer, stream)
      (ap (λ l. l ++ delivered (stream world fuel (suc i) left)) (take-length buffer)
        ∙ ap (λ l. buffer ++ l)
            (stream-delivers world all fuel (suc i) left
              (omega (arith, h, length-drop stream_chunk_size (b ∷ rest))))
        ∙ take-append-drop stream_chunk_size (b ∷ rest))

-- What goes out of one round and the rounds behind it, for a `send` that takes `n` bytes.
round-le :
    (n : ℕ) (rest out : Bytes)
    → length out ≤ length (drop stream_chunk_size rest)
    → length (take n (take stream_chunk_size rest) ++ out)
      ≤ length (take n (take stream_chunk_size rest)) + length (drop stream_chunk_size rest)
round-le n rest out h = omega (arith, length-append (take n (take stream_chunk_size rest)) out)

chunk_and_rest :
    (rest : Bytes)
    → length (take stream_chunk_size rest) + length (drop stream_chunk_size rest) ≡ length rest
chunk_and_rest rest =
    sym (length-append (take stream_chunk_size rest) (drop stream_chunk_size rest))
    ∙ ap length (take-append-drop stream_chunk_size rest)

stream-delivers-le :
    (world : World) (fuel i : ℕ) (rest : Bytes)
    → length (delivered (stream world fuel i rest)) ≤ length rest
unfolding stream
stream-delivers-le world zero i rest = omega arith
stream-delivers-le world (suc fuel) i [] = omega arith
stream-delivers-le world (suc fuel) i (b ∷ rest) =
    elim (ℤ-cases (world.send i (take stream_chunk_size (b ∷ rest)))) [
      | inl (n, e) ↦
          rw (e, stream)
            (omega (
              arith,
              round-le n (b ∷ rest) _
                  (stream-delivers-le world fuel (suc i) (drop stream_chunk_size (b ∷ rest))),
              length-take-le n (take stream_chunk_size (b ∷ rest)),
              chunk_and_rest (b ∷ rest),
            ))
      | inr (n, e) ↦ rw (e, stream) (omega arith)
    ]

close_client-IsClosed : IsClosed 0 close_client
close_client-IsClosed = record { socket = refl; live = refl; argument = refl; balance = refl }

IsClosed-open_file :
    {es : List Effect} (path : Bytes) → IsClosed 1 es → IsClosed 0 (open_file path ∷ es)
IsClosed-open_file path c = record {
  socket = c.socket;
  live = c.live;
  argument = c.argument;
  balance = omega (arith, c.balance);
}

serve-IsClosed : (world : World) (path : Bytes) → IsClosed 0 (serve world path)
unfolding serve
serve-IsClosed world path = elim (Option-cases (world.files path)) [
  | inr (file, e) ↦
      rw (e, serve)
        (IsClosed-open_file path (stream-IsClosed world (suc (length file)) 0 file (omega arith)))
  | inl e ↦ rw (e, serve) close_client-IsClosed
]

number-lt :
    (number : ℤ)
    → (leb_ℤ (pos 1) number && leb_ℤ number (pos song_count)) ≡ true
    → pos_part number - 1 < song_count
number-lt (pos n) h = ground arith
number-lt (negsuc n) h = ground arith

song_path-exists :
    (song_paths : List Bytes) (number : ℤ) (d : Bytes)
    → length song_paths ≡ song_count
    → (leb_ℤ (pos 1) number && leb_ℤ number (pos song_count)) ≡ true
    → get_elem? song_paths (pos_part number - 1) ≡ some (get_or song_paths (pos_part number - 1) d)
song_path-exists song_paths number d h g =
    get_elem?-eq-get_or song_paths (pos_part number - 1) d (omega (arith, number-lt number g))

-- Whatever the client sends, the files are and `send` returns, with the three songs that `main` has
-- found: the handler ends, and it has closed the socket once, taken itself off the live handlers once,
-- freed its argument once, and closed every file that it opened.
pub handle_client-IsClosed :
    (world : World) (song_paths : List Bytes)
    → length song_paths ≡ song_count
    → (es : List Effect) × (handle_client world song_paths ≡ some es) × IsClosed 0 es
unfolding handle_client
handle_client-IsClosed world song_paths h = elim (Bool-cases (leb_ℤ world.received (pos 0))) [
  | inl e ↦ (close_client, rw (e, handle_client) refl, close_client-IsClosed)
  | inr e ↦ elim (Bool-cases (leb_ℤ (pos 1) world.number && leb_ℤ world.number (pos song_count))) [
    | inl g ↦ (
      serve world (get_or song_paths (pos_part world.number - 1) []),
      rw (e, g, song_path-exists song_paths world.number [] h g, handle_client) refl,
      serve-IsClosed world _,
    )
    | inr g ↦ (close_client, rw (e, g, handle_client) refl, close_client-IsClosed)
  ]
]

-- A client that is served gets the whole file, byte for byte, if every `send` takes all that it is given.
pub serve-delivers :
    (world : World) (path file : Bytes)
    → world.files path ≡ some file
    → ((i : ℕ) (b : Bytes) → world.send i b ≡ pos (length b))
    → delivered (serve world path) ≡ file
unfolding serve
serve-delivers world path file e all =
    rw (e, serve) (stream-delivers world all (suc (length file)) 0 file (omega arith))

-- If the first `send` takes only a part of what it is given, the client gets fewer bytes than the file
-- has, whatever the later calls do: the bytes that it left are never sent again.
pub serve-loses :
    (world : World) (path file : Bytes) (k : ℕ)
    → world.files path ≡ some file
    → world.send 0 (take stream_chunk_size file) ≡ pos k
    → k < length (take stream_chunk_size file)
    → length (delivered (serve world path)) < length file
unfolding serve
serve-loses world path [] k e first short = absurd (omega arith)
serve-loses world path (b ∷ file) k e first short =
    rw (e, serve, first, stream)
      (omega (
        arith,
        round-le k (b ∷ file) _
            (stream-delivers-le world (length (b ∷ file)) 1 (drop stream_chunk_size (b ∷ file))),
        length-take-le k (take stream_chunk_size (b ∷ file)),
        chunk_and_rest (b ∷ file),
        short,
      ))
