-- ===== src/Chat/Handler/Turns.antt =====
-- What one step of a client's thread does to its client, to `users` and to `live_users`.
use pc_project_2024_mtr.Prelude.{
  ℕ, ◌+◌, ◌≤◌, ◌≡◌, ◌≢◌, ◌⊎◌, inl, inr, Bool-cases, refl, sym, ◌∙◌, Bool, true, false, List, some,
  arith,
}
use pc_project_2024_mtr.Prelude.Int.{ℤ, pos_part, neg_part}
use pc_project_2024_mtr.Prelude.Text.{Bytes, same_string, same_string_iff, same_string_refl}
use pc_project_2024_mtr.Chat.Users.{lookup, insert, erase}
use pc_project_2024_mtr.Chat.Users.Laws.{
  IsSorted, IsSorted-insert, IsSorted-erase, lookup-insert, lookup-erase,
}
use pc_project_2024_mtr.Chat.Handler.{
  Phase, then_looping, joining, looping, hearing, telling, leaving, closing, deleted, Session, Turn,
  has_ended,
}

abbrev pub on : Bool → ℕ
on true = 1
on false = 0

-- 1 at the phases at which a client may be online.
abbrev pub may_be_online : Phase → ℕ
may_be_online joining = 1
may_be_online looping = 1
may_be_online (hearing heard) = 1
may_be_online (telling message last then_looping) = 1
may_be_online _ = 0

-- 1 at those at which it is.
abbrev pub must_be_online : Phase → ℕ
must_be_online (hearing heard) = 1
must_be_online _ = 0

-- 1 at the phases behind `register_client`.
abbrev pub has_tried : Phase → ℕ
has_tried joining = 1
has_tried looping = 1
has_tried (hearing heard) = 1
has_tried (telling message last after) = 1
has_tried leaving = 1
has_tried closing = 1
has_tried deleted = 1
has_tried _ = 0

pub record IsSession (s : Session) : Type 0 where
  pub closed : s.closes ≡ on (has_ended s.phase) + on s.rejected
  pub may : on s.is_online ≤ may_be_online s.phase
  pub must : must_be_online s.phase ≤ on s.is_online
  pub tried : on s.rejected ≤ has_tried s.phase
  pub apart : on s.rejected + on s.is_online ≤ 1

-- The client has been registered, at some time.
abbrev pub Registered : Session → Type 0
Registered s = (has_tried s.phase ≡ 1) × (on s.rejected ≡ 0)

-- In `users` the client stands only where it is online, and only under its name.
pub record IsTurn (client : ℕ) (t : Turn) : Type 0 where
  pub session : IsSession t.session
  pub sorted : IsSorted t.users
  pub only :
      (name : Bytes)
      → lookup name t.users ≡ some client
      → (t.session.is_online ≡ true) × (name ≡ t.session.name)

-- The turn `t'` behind a step: other clients stand in `users` as before, or not at all, and those that do not
-- any more have the name of this client, which has been registered under it. `live_users` has lost as much as
-- the client has been closed.
pub record Keeps (client : ℕ) (t t' : Turn) : Type 0 where
  pub turn : IsTurn client t'
  pub others :
      (name : Bytes) (other : ℕ)
      → other ≢ client
      → lookup name t'.users ≡ some other
      → lookup name t.users ≡ some other
  pub displaced :
      (name : Bytes) (other : ℕ)
      → other ≢ client
      → lookup name t.users ≡ some other
      → (lookup name t'.users ≡ some other) ⊎ ((name ≡ t'.session.name) × Registered t'.session)
  pub mine :
      t'.session.is_online ≡ true
      → (lookup t'.session.name t'.users ≡ some client)
        ⊎ ((t.session.is_online ≡ true) × (t'.session.name ≡ t.session.name) × (t'.users ≡ t.users))
  pub stays : Registered t.session → Registered t'.session × (t'.session.name ≡ t.session.name)
  pub balance :
      pos_part t'.live + neg_part t.live + t'.session.closes
      ≡ neg_part t'.live + pos_part t.live + t.session.closes
  pub fewer : t.session.closes ≤ t'.session.closes

module _ (client : ℕ) (t : Turn) (v : IsTurn client t) where
  -- `users` stays.
  pub Keeps-users :
      (s : Session) (live : ℤ) (sent : List (ℕ × Bytes))
      → IsSession s
      → s.is_online ≡ t.session.is_online
      → (t.session.is_online ≡ true → s.name ≡ t.session.name)
      → (Registered t.session → Registered s × (s.name ≡ t.session.name))
      → pos_part live + neg_part t.live + s.closes
        ≡ neg_part live + pos_part t.live + t.session.closes
      → t.session.closes ≤ s.closes
      → Keeps client t (record { session = s; users = t.users; live = live; sent = sent })
  Keeps-users s live sent is same name stays balance fewer = record {
    turn = record {
      session = is;
      sorted = v.sorted;
      only = λ n found. let (online, e) = v.only n found in (same ∙ online, e ∙ sym (name online));
    };
    others = λ n other ne h. h;
    displaced = λ n other ne h. inl h;
    mine = λ online. inr (sym same ∙ online, name (sym same ∙ online), refl);
    stays = stays;
    balance = balance;
    fewer = fewer;
  }

  pub Keeps-register :
      (sent : List (ℕ × Bytes)) (phase : Phase)
      → has_tried t.session.phase ≡ 0
      → Registered (record t.session { phase = phase })
      → IsSession (record t.session { is_online = true; phase = phase })
      → Keeps client t (record {
        session = record t.session { is_online = true; phase = phase };
        users = insert t.session.name client t.users;
        live = t.live;
        sent = sent;
      })
  Keeps-register sent phase untried registered is = record {
    turn = record {
      session = is;
      sorted = IsSorted-insert t.session.name client t.users v.sorted;
      only = λ n found. (
        refl,
        ground (
          arith,
          found,
          lookup-insert n t.session.name client t.users,
          same_string_iff n t.session.name,
          v.only n,
        ),
      );
    };
    others = λ n other ne h. ground (arith, h, lookup-insert n t.session.name client t.users);
    displaced = λ n other ne h. elim (Bool-cases (same_string n t.session.name)) [
      | inl same ↦ inr ((same_string_iff n t.session.name).0 same, registered)
      | inr differs ↦ inl (lookup-insert n t.session.name client t.users ∙ rw differs h)
    ];
    mine = λ online. inl (rw (lookup-insert, same_string_refl) refl);
    stays = λ g. absurd (omega (arith, g.0, untried));
    balance = omega arith;
    fewer = omega arith;
  }

  pub Keeps-unregister :
      (sent : List (ℕ × Bytes)) (phase : Phase)
      → Registered (record t.session { phase = phase })
      → IsSession (record t.session { is_online = false; phase = phase })
      → Keeps client t (record {
        session = record t.session { is_online = false; phase = phase };
        users = erase t.session.name t.users;
        live = t.live;
        sent = sent;
      })
  Keeps-unregister sent phase registered is = record {
    turn = record {
      session = is;
      sorted = IsSorted-erase t.session.name t.users v.sorted;
      only = λ n found. ground (
        arith,
        found,
        lookup-erase n t.session.name t.users v.sorted,
        same_string_iff n t.session.name,
        v.only n,
      );
    };
    others = λ n other ne h. ground (arith, h, lookup-erase n t.session.name t.users v.sorted);
    displaced = λ n other ne h. elim (Bool-cases (same_string n t.session.name)) [
      | inl same ↦ inr ((same_string_iff n t.session.name).0 same, registered)
      | inr differs ↦ inl (lookup-erase n t.session.name t.users v.sorted ∙ rw differs h)
    ];
    mine = λ e. cc;
    stays = λ g. (registered, refl);
    balance = omega arith;
    fewer = omega arith;
  }
