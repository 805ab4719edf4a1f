-- ===== src/Chat/Settings/Laws.antt =====
-- The options that the server of hw/server.cpp runs with.
use pc_project_2024_mtr.Prelude.{
  not_exited, ◌≤◌, ◌≡◌, ◌⊎◌, inl, inr, subst, Bool, false, ◌||◌, ◌&&◌, List, Option, ok, exit,
  Error, if◌then◌else◌, >>=-eq-ok, arith,
}
use pc_project_2024_mtr.Prelude.Int.{ℤ, pos, negsuc, pos_part, leb_ℤ, neb_ℤ}
use pc_project_2024_mtr.Prelude.Text.{Bytes}
use pc_project_2024_mtr.Chat.Settings.{Options, number_or, make_options}

-- The numbers that are accepted.
pub record IsAccepted (o : Options) : Type 0 where
  pub port : 1 ≤ pos_part o.port
  pub places : 1 ≤ pos_part o.max_concurrent_clients
  pub patience : (o.timeout ≡ negsuc 0) ⊎ (1 ≤ pos_part o.timeout)

is_refused : Options → Bool
is_refused o =
    leb_ℤ o.port (pos 0)
    || leb_ℤ o.max_concurrent_clients (pos 0)
    || (leb_ℤ o.timeout (pos 0) && neb_ℤ o.timeout (negsuc 0))

never_or_some :
    (a : ℤ) → (leb_ℤ a (pos 0) && neb_ℤ a (negsuc 0)) ≡ false → (a ≡ negsuc 0) ⊎ (1 ≤ pos_part a)
never_or_some (pos n) h = inr (ground arith)
never_or_some (negsuc n) h = inl (ground arith)

positive : (a : ℤ) → leb_ℤ a (pos 0) ≡ false → 1 ≤ pos_part a
positive a h = ground arith

or_false : (a b : Bool) → (a || b) ≡ false → (a ≡ false) × (b ≡ false)
or_false a b h = ground arith

checked :
    (o p : Options)
    → (if is_refused o then exit Error.bad_arguments else ok o) ≡ ok p
    → IsAccepted p
unfolding is_refused
checked o p e =
    let (test, same) = not_exited Error.bad_arguments (is_refused o) o p e in
    let (numbers, patience) =
      or_false (leb_ℤ o.port (pos 0) || leb_ℤ o.max_concurrent_clients (pos 0)) _ test in
    let (port, places) = or_false (leb_ℤ o.port (pos 0)) _ numbers in
    subst IsAccepted same (record {
      port = positive o.port port;
      places = positive o.max_concurrent_clients places;
      patience = never_or_some o.timeout patience;
    })

-- The server runs with a positive port and limit, and a timeout that is -1 or positive, or does not run.
pub make_options-IsAccepted :
    (stoi : Bytes → Option ℤ) (argv : List Bytes) (o : Options)
    → make_options stoi argv ≡ ok o
    → IsAccepted o
unfolding make_options is_refused
make_options-IsAccepted stoi argv o e =
    let (port, ep, e1) = >>=-eq-ok (number_or stoi argv 1 (pos 8000)) e in
    let (max, em, e2) = >>=-eq-ok (number_or stoi argv 2 (pos 16)) e1 in
    let (timeout, et, e3) = >>=-eq-ok (number_or stoi argv 3 (negsuc 0)) e2 in
    checked (record { port = port; max_concurrent_clients = max; timeout = timeout }) o e3
