-- ===== src/Chat/Users.antt =====
-- `Server::users` of hw/server.cpp, a `std::map` from names to clients: its entries in the order of the
-- names, each name once. A client is a number that stands for its address.
pub mod Laws
pub mod Broadcast
pub mod Loop
use pc_project_2024_mtr.Prelude.{
  ℕ, ◌≡◌, Bool, true, false, ◌&&◌, List, [], ◌∷◌, ◌++◌, Option, none, some, ◌==◌, if◌then◌else◌,
}
use pc_project_2024_mtr.Prelude.Text.{Bytes, codes, same_string, before}

abbrev pub Users : Type 0
Users = List (Bytes × ℕ)

-- `users.find(name)`, and `users.count(name)` is whether there is one.
unfoldable pub lookup : Bytes → Users → Option ℕ
lookup name [] = none
lookup name ((other, client) ∷ users) =
    if same_string name other then some client else lookup name users

-- `users[name] = client`
unfoldable pub insert : Bytes → ℕ → Users → Users
insert name client [] = (name, client) ∷ []
insert name client ((other, old) ∷ users) =
    if same_string name other
    then (other, client) ∷ users
    else if before name other
    then (name, client) ∷ (other, old) ∷ users
    else (other, old) ∷ insert name client users

-- `users.erase(name)`
unfoldable pub erase : Bytes → Users → Users
erase name [] = []
erase name ((other, client) ∷ users) =
    if same_string name other then users else (other, client) ∷ erase name users

-- One step of the loop over the map: the first entry, or the one behind the name that the loop has come to.
unfoldable pub next_user : Option Bytes → Users → Option (Bytes × ℕ)
next_user none [] = none
next_user none (user ∷ users) = some user
next_user (some last) [] = none
next_user (some last) ((name, client) ∷ users) =
    let rest = next_user (some last) users in if before last name then some (name, client) else rest

-- What `Server::broadcast` sends where nothing changes the map meanwhile: the calls of `send_message`, as
-- pairs of a client and what it is sent. `tell` of Chat/Handler.antt is a round of its loop.
unfoldable pub broadcast : Users → ℕ → Bytes → List (ℕ × Bytes)
broadcast [] sender message = []
broadcast ((name, client) ∷ users) sender message =
    let rest = broadcast users sender message in
    if client == sender then rest else (client, message) ∷ rest

-- `Server::get_userlist`
unfoldable pub get_userlist : Users → Bytes
get_userlist [] = []
get_userlist ((name, client) ∷ users) = codes "\n\t-" ++ (name ++ get_userlist users)
