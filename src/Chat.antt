-- ===== src/Chat.antt =====
-- hw: a chat room. `Users`, `Message`, `Settings` and `Room` are the server, hw/server.cpp; `Terminal` is the
-- client, hw/client.cpp.
pub mod Users
pub mod Message
pub mod Settings
pub mod Handler
pub mod Room
pub mod Terminal
