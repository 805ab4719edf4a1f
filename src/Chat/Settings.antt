-- ===== src/Chat/Settings.antt =====
-- `Options` of hw/server.cpp.
pub mod Laws
use pc_project_2024_mtr.Prelude.{
  ℕ, ◌≡◌, Bool, true, false, ◌||◌, ◌&&◌, List, Option, none, some, get_elem?, if◌then◌else◌,
  Outcome, ok, exit, Error, ◌>>=◌,
}
use pc_project_2024_mtr.Prelude.Int.{ℤ, pos, negsuc, leb_ℤ, neb_ℤ}
use pc_project_2024_mtr.Prelude.Text.{Bytes}

pub record Options : Type 0 where
  pub port : ℤ
  pub max_concurrent_clients : ℤ
  pub timeout : ℤ

-- `argc > i ? std::stoi(argv[i]) : otherwise`; `stoi` is the library's, and throws at a text that is no
-- number of its range.
unfoldable pub number_or : (Bytes → Option ℤ) → List Bytes → ℕ → ℤ → Outcome ℤ
number_or stoi argv i otherwise = elim (get_elem? argv i) [
  | none ↦ ok otherwise
  | some s ↦ elim (stoi s) [ none ↦ exit Error.bad_number | some n ↦ ok n ]
]

-- `Options::Options`. An exception, which nobody catches, ends the program.
unfoldable pub make_options : (Bytes → Option ℤ) → List Bytes → Outcome Options
unfolding number_or
make_options stoi argv = do
  port ← number_or stoi argv 1 (pos 8000)
  max_concurrent_clients ← number_or stoi argv 2 (pos 16)
  timeout ← number_or stoi argv 3 (negsuc 0)
  if leb_ℤ port (pos 0)
        || leb_ℤ max_concurrent_clients (pos 0)
        || (leb_ℤ timeout (pos 0) && neb_ℤ timeout (negsuc 0))
      then exit Error.bad_arguments
      else ok (record {
        port = port;
        max_concurrent_clients = max_concurrent_clients;
        timeout = timeout;
      })
