-- ===== src/Prelude/Results.antt =====
-- What a call of the C code can come to.
use mathlib.Core.Path.{◌≡◌, refl}
use mathlib.Core.Bool.{Bool, true, false}
use mathlib.Core.Option.{Option, none, some}
use pc_project_2024_mtr.Prelude.Tests.{if◌then◌else◌}

-- The reasons for which the programs call `exit(1)`, or for which an `assert` or an exception ends them.
pub data Error : Type 0 where
  no_memory bad_dimension bad_arguments stale_dispatch stale_chunks stale_tasks bad_directory
        few_songs bad_number socket_closed no_player broken_pipe lost_connection failed_assertion
        no_socket not_bound not_listening not_accepted bad_address not_connected no_thread :
      Error

-- `wait`: the caller sleeps on a condition variable, with nothing changed, and tests again later.
-- `fault`: undefined behaviour, such as an access through a dangling pointer or out of bounds.
pub data Outcome {ℓ} (A : Type ℓ) : Type ℓ where
  ok : A → Outcome A
  wait : Outcome A
  exit : Error → Outcome A
  fault : Outcome A

infixl 5 ◌>>=◌
abbrev pub ◌>>=◌ {ℓ κ} : {A : Type ℓ} {B : Type κ} → Outcome A → (A → Outcome B) → Outcome B
ok a >>= f = f a
wait >>= f = wait
exit e >>= f = exit e
fault >>= f = fault

-- A read that is undefined behaviour where there is nothing to read.
abbrev pub or_fault {ℓ} : {A : Type ℓ} → Option A → Outcome A
or_fault none = fault
or_fault (some a) = ok a

pub ok-injective {ℓ} : {A : Type ℓ} (a b : A) → ok a ≡ ok b → a ≡ b
ok-injective a b e = cc

-- What a sequence returns, it returns from its second call.
pub >>=-eq-ok {ℓ κ} :
    {A : Type ℓ} {B : Type κ} (call : Outcome A) {next : A → Outcome B} {result : B}
    → call >>= next ≡ ok result
    → (a : A) × (call ≡ ok a) × (next a ≡ ok result)
>>=-eq-ok (ok a) h = (a, refl, h)
>>=-eq-ok wait h = cc
>>=-eq-ok (exit e) h = cc
>>=-eq-ok fault h = cc

-- A call that a guard has let through.
pub not_exited {ℓ} :
    {A : Type ℓ} (e : Error) (test : Bool) (r o : A)
    → (if test then exit e else ok r) ≡ ok o
    → (test ≡ false) × (r ≡ o)
not_exited e true r o h = cc
not_exited e false r o h = (refl, ok-injective r o h)
