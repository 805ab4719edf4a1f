-- ===== src/Chat/Room/Invariant.antt =====
-- What holds in every state of the chat server of hw/server.cpp.
use pc_project_2024_mtr.Prelude.{
  ℕ, suc, ◌+◌, ◌≤◌, ◌<◌, ◌≡◌, refl, ap, true, [], some, arith, ltb→lt,
}
use pc_project_2024_mtr.Prelude.Int.{ℤ, pos, negsuc, pos_part, neg_part, +ℤ_one, -ℤ_one}
use pc_project_2024_mtr.Prelude.Text.{Bytes}
use pc_project_2024_mtr.Prelude.Family.{
  assign, assign_at, total, total-assign, total-assign_of_le, total-suc, total_of_zero,
}
use pc_project_2024_mtr.Chat.Users.{lookup}
use pc_project_2024_mtr.Chat.Message.{Heard}
use pc_project_2024_mtr.Chat.Settings.{Options}
use pc_project_2024_mtr.Chat.Handler.{Session, connected, Turn, listens, hear}
use pc_project_2024_mtr.Chat.Handler.Turns.{Keeps}
use pc_project_2024_mtr.Chat.Handler.Proceed.{Keeps-proceed}
use pc_project_2024_mtr.Chat.Room.{
  Main, testing, accepting, counting, spawning, Room, turn_of, store_turn, Step, interrupt, enter,
  leave, find_place, give_up, connect, refuse, count, spawn, drop_last, listen, handle, Reach,
  start, later,
}
use pc_project_2024_mtr.Chat.Room.Register.{
  IsRegister, IsSession-connected, IsTurn-of, IsRegister-turn, IsRegister-session, IsRegister-spawn,
  hear-lem,
}

-- 1 where `main` has counted a client that has no thread.
abbrev pub counted : Main → ℕ
counted spawning = 1
counted _ = 0

-- 1 where `main` has found a place that it has not filled.
abbrev pub reserved : Main → ℕ
reserved accepting = 1
reserved counting = 1
reserved _ = 0

abbrev pub closes_of : Session → ℕ
closes_of s = s.closes

-- `live_users` is the number of clients counted less the number of calls of `close_`, and leaves room for
-- the place that `main` has found.
pub record Inv (options : Options) (r : Room) : Type 0 where
  pub register : IsRegister r.users r.sessions r.next
  pub balance :
      pos_part r.live + total closes_of r.next r.sessions
      ≡ neg_part r.live + r.next + counted r.main
  pub bounded :
      pos_part r.live + reserved r.main + neg_part options.max_concurrent_clients
      ≤ pos_part options.max_concurrent_clients + neg_part r.live

module _ {options : Options} where
  Inv-listen :
      {r : Room} (client : ℕ) (heard : Heard)
      → Inv options r
      → client < r.next
      → listens (r.sessions client) ≡ true
      → Inv options
          (record r { sessions = assign r.sessions client (hear heard (r.sessions client)) })
  Inv-listen {r} client heard i below l =
      let (is, same, same_name, closes, stays) =
        hear-lem heard (r.sessions client) (i.register.each client) l in
      record {
        register = IsRegister-session r client _ i.register is same same_name stays;
        balance = omega (
          arith,
          i.balance,
          closes,
          total-assign closes_of r.next r.sessions client (hear heard (r.sessions client)) below,
        );
        bounded = i.bounded;
      }

  Inv-handle :
      {r : Room} (client : ℕ) (t : Turn)
      → Inv options r
      → client < r.next
      → Keeps client (turn_of r client) t
      → Inv options (store_turn r client t)
  Inv-handle {r} client t i below k = record {
    register = IsRegister-turn r client t below i.register k;
    balance = omega (
      arith,
      i.balance,
      k.balance,
      total-assign closes_of r.next r.sessions client t.session below,
    );
    bounded = omega (arith, i.bounded, k.balance, k.fewer);
  }

  Inv-spawn :
      {r : Room}
      → Inv options r
      → r.main ≡ spawning
      → Inv options (record r {
        main = testing;
        sessions = assign r.sessions r.next connected;
        next = suc r.next;
      })
  Inv-spawn {r} i e = record {
    register = IsRegister-spawn r i.register;
    balance = omega (
      arith,
      i.balance,
      ap counted e,
      total-suc closes_of r.next (assign r.sessions r.next connected),
      total-assign_of_le closes_of r.next r.sessions r.next connected (omega arith),
      ap closes_of (assign_at r.sessions r.next connected r.next refl),
    );
    bounded = omega (arith, i.bounded);
  }

  Inv-Step : {r s : Room} → Inv options r → Step options r s → Inv options s
  Inv-Step i interrupt = record { register = i.register; balance = i.balance; bounded = i.bounded }
  Inv-Step i (enter e f) = record {
    register = i.register;
    balance = omega (arith, i.balance, ap counted e);
    bounded = omega (arith, i.bounded);
  }
  Inv-Step i (leave e f) = record {
    register = i.register;
    balance = omega (arith, i.balance, ap counted e);
    bounded = omega (arith, i.bounded);
  }
  Inv-Step i (find_place e f free) = record {
    register = i.register;
    balance = omega (arith, i.balance, ap counted e);
    bounded = omega (arith, ltb→lt _ _ (rw f at free));
  }
  Inv-Step i (give_up e f) = record {
    register = i.register;
    balance = omega (arith, i.balance, ap counted e);
    bounded = omega (arith, i.bounded);
  }
  Inv-Step i (connect e) = record {
    register = i.register;
    balance = omega (arith, i.balance, ap counted e);
    bounded = omega (arith, i.bounded, ap reserved e);
  }
  Inv-Step i (refuse e) = record {
    register = i.register;
    balance = omega (arith, i.balance, ap counted e);
    bounded = omega (arith, i.bounded);
  }
  Inv-Step {r} i (count e) = record {
    register = i.register;
    balance = omega (arith, i.balance, ap counted e, +ℤ_one r.live);
    bounded = omega (arith, i.bounded, ap reserved e, +ℤ_one r.live);
  }
  Inv-Step i (spawn e f) = Inv-spawn i e
  Inv-Step {r} i (drop_last e f) = record {
    register = i.register;
    balance = omega (arith, i.balance, ap counted e, -ℤ_one r.live);
    bounded = omega (arith, i.bounded, -ℤ_one r.live);
  }
  Inv-Step i (listen client ready received {heard} below l e) = Inv-listen client heard i below l
  Inv-Step {r} i (handle client below l n) = Inv-handle client _ i below (
      Keeps-proceed client (turn_of r client) (IsTurn-of r client i.register)
        (r.sessions client).phase refl l n)

  -- In every state that the server reaches.
  pub Reach-Inv :
      {r : Room} → 1 ≤ pos_part options.max_concurrent_clients → Reach options r → Inv options r
  unfolding lookup
  Reach-Inv h start = record {
    register = record {
      each = λ c. IsSession-connected;
      sorted = tt;
      listed = λ c online. cc;
      only = λ name c found. absurd (nobody name c found);
    };
    balance = omega (arith, total_of_zero closes_of 0 (λ _. connected) (λ i h. refl));
    bounded = omega (arith, positive options.max_concurrent_clients h);
  }
    where
      nobody : (name : Bytes) (c : ℕ) → lookup name [] ≡ some c → ⊥
      nobody name c e = cc

      positive : (a : ℤ) → 1 ≤ pos_part a → neg_part a ≡ 0
      positive (pos n) p = refl
      positive (negsuc n) p = absurd (omega arith)
  Reach-Inv h (later reach step) = Inv-Step (Reach-Inv h reach) step
