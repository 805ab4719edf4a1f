-- ===== src/Server.antt =====
-- task3/server.c: the song server. `Songs` finds the files and reads the options, `Handler` serves one
-- client, and `Accept` is the loop of `main` that accepts them. `Player` is its client, task3/client.c.
pub mod Songs
pub mod Handler
pub mod Accept
pub mod Player
