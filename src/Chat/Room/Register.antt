-- ===== src/Chat/Room/Register.antt =====
-- The clients of hw/server.cpp and `users`, under the steps of their threads.
use pc_project_2024_mtr.Prelude.{
  ℕ, suc, ◌<◌, ◌≡◌, ◌≢◌, ◌⊎◌, inl, inr, refl, sym, ◌∙◌, ap, subst, true, some, arith, ℕ_discrete,
}
use pc_project_2024_mtr.Prelude.Text.{Bytes}
use pc_project_2024_mtr.Prelude.Family.{assign, assign_at, assign_ne}
use pc_project_2024_mtr.Chat.Users.{Users, lookup}
use pc_project_2024_mtr.Chat.Users.Laws.{IsSorted}
use pc_project_2024_mtr.Chat.Message.{Heard}
use pc_project_2024_mtr.Chat.Handler.{
  Phase, greeting, naming, named, registering, inserting, telling, joining, looping, hearing,
  leaving, closing, returned, deleted, Session, connected, Turn, listens, hear, has_ended,
}
use pc_project_2024_mtr.Chat.Handler.Turns.{
  on, may_be_online, has_tried, IsSession, Registered, IsTurn, Keeps,
}
use pc_project_2024_mtr.Chat.Room.{Room, turn_of}

-- Another client has been registered under this name.
pub record Rival (sessions : ℕ → Session) (next client : ℕ) (name : Bytes) : Type 0 where
  pub rival : ℕ
  pub differs : rival ≢ client
  pub below : rival < next
  pub same_name : (sessions rival).name ≡ name
  pub registered : Registered (sessions rival)

-- In `users` stand only clients that are online, each under its name. A client that is online stands there
-- unless another one has been registered under its name.
pub record IsRegister (users : Users) (sessions : ℕ → Session) (next : ℕ) : Type 0 where
  pub each : (client : ℕ) → IsSession (sessions client)
  pub sorted : IsSorted users
  pub listed :
      (client : ℕ)
      → (sessions client).is_online ≡ true
      → (lookup (sessions client).name users ≡ some client)
        ⊎ Rival sessions next client (sessions client).name
  pub only :
      (name : Bytes) (client : ℕ)
      → lookup name users ≡ some client
      → ((sessions client).is_online ≡ true) × (name ≡ (sessions client).name) × (client < next)

pub IsSession-connected : IsSession connected
IsSession-connected = omega arith

pub IsTurn-of :
    (r : Room) (client : ℕ)
    → IsRegister r.users r.sessions r.next
    → IsTurn client (turn_of r client)
IsTurn-of r client g = record {
  session = g.each client;
  sorted = g.sorted;
  only = λ name found. let (online, e, below) = g.only name client found in (online, e);
}

-- A property of all clients after one of them has changed.
each-assign {ℓ} :
    (P : ℕ → Session → Type ℓ) (sessions : ℕ → Session) (client : ℕ) (s : Session)
    → P client s
    → ((other : ℕ) → client ≢ other → P other (sessions other))
    → (other : ℕ) → P other (assign sessions client s other)
each-assign P sessions client s here there other = elim (ℕ_discrete client other) [
  | yes e ↦ subst (P other) (sym (assign_at sessions client s other e)) (subst (λ c. P c s) e here)
  | no ne ↦ subst (P other) (sym (assign_ne sessions client s other ne)) (there other ne)
]

-- A rival stays one.
Rival-assign :
    (sessions : ℕ → Session) (next client other : ℕ) (s : Session) (name : Bytes)
    → (Registered (sessions client) → Registered s × (s.name ≡ (sessions client).name))
    → Rival sessions next other name
    → Rival (assign sessions client s) next other name
Rival-assign sessions next client other s name stays rival = record {
  rival = rival.rival;
  differs = rival.differs;
  below = rival.below;
  same_name = now.1;
  registered = now.0;
}
  where
    now :
        Registered (assign sessions client s rival.rival)
        × ((assign sessions client s rival.rival).name ≡ name)
    now =
        each-assign (λ o p. o ≡ rival.rival → Registered p × (p.name ≡ name)) sessions client s
          (λ e.
            let (registered, same) = stays (rw e rival.registered) in
            (registered, same ∙ ap (λ o. (sessions o).name) e ∙ rival.same_name))
          (λ o ne e. rw e (rival.registered, rival.same_name)) rival.rival refl

pub IsRegister-turn :
    (r : Room) (client : ℕ) (t : Turn)
    → client < r.next
    → IsRegister r.users r.sessions r.next
    → Keeps client (turn_of r client) t
    → IsRegister t.users (assign r.sessions client t.session) r.next
IsRegister-turn r client t below g k = record {
  each = each-assign (λ _. IsSession) r.sessions client t.session k.turn.session (λ o ne. g.each o);
  sorted = k.turn.sorted;
  listed =
      each-assign
        (λ c s. s.is_online ≡ true → (lookup s.name t.users ≡ some c) ⊎ Rival after r.next c s.name)
        r.sessions client t.session own others;
  only = λ name c.
      each-assign
        (λ c s.
          lookup name t.users ≡ some c → (s.is_online ≡ true) × (name ≡ s.name) × (c < r.next))
        r.sessions client t.session
        (λ found. let (online, e) = k.turn.only name found in (online, e, below))
        (λ o ne found. g.only name o (k.others name o (λ e. ne (sym e)) found)) c;
}
  where
    after : ℕ → Session
    after = assign r.sessions client t.session

    at_client : after client ≡ t.session
    at_client = assign_at r.sessions client t.session client refl

    stays_rival :
        (c : ℕ) (name : Bytes) → Rival r.sessions r.next c name → Rival after r.next c name
    stays_rival c name = Rival-assign r.sessions r.next client c t.session name k.stays

    own :
        t.session.is_online ≡ true
        → (lookup t.session.name t.users ≡ some client) ⊎ Rival after r.next client t.session.name
    own online = elim (k.mine online) [
      | inl found ↦ inl found
      | inr (was, same_name, same) ↦ elim (g.listed client was) [
        | inl found ↦ inl (rw (same_name, same) found)
        | inr rival ↦ inr (
            subst (Rival after r.next client) (sym same_name)
              (stays_rival client (r.sessions client).name rival))
      ]
    ]

    others :
        (o : ℕ)
        → client ≢ o
        → (r.sessions o).is_online ≡ true
        → (lookup (r.sessions o).name t.users ≡ some o) ⊎ Rival after r.next o (r.sessions o).name
    others o ne online = elim (g.listed o online) [
      | inr rival ↦ inr (stays_rival o (r.sessions o).name rival)
      | inl found ↦ elim (k.displaced (r.sessions o).name o (λ e. ne (sym e)) found) [
        | inl still ↦ inl still
        | inr (same, registered) ↦ inr (record {
          rival = client;
          differs = ne;
          below = below;
          same_name = ap (λ s. s.name) at_client ∙ sym same;
          registered = subst Registered (sym at_client) registered;
        })
      ]
    ]

-- A client that neither goes on- or offline nor changes its name.
pub IsRegister-session :
    (r : Room) (client : ℕ) (s : Session)
    → IsRegister r.users r.sessions r.next
    → IsSession s
    → s.is_online ≡ (r.sessions client).is_online
    → s.name ≡ (r.sessions client).name
    → (Registered (r.sessions client) → Registered s)
    → IsRegister r.users (assign r.sessions client s) r.next
IsRegister-session r client s g is same same_name stays = record {
  each = each-assign (λ _. IsSession) r.sessions client s is (λ o ne. g.each o);
  sorted = g.sorted;
  listed =
      each-assign
        (λ c s'.
          s'.is_online ≡ true
          → (lookup s'.name r.users ≡ some c) ⊎ Rival (assign r.sessions client s) r.next c s'.name)
        r.sessions client s
        (λ online.
          subst
            (λ m.
              (lookup m r.users ≡ some client) ⊎ Rival (assign r.sessions client s) r.next client m)
            (sym same_name) (kept client (sym same ∙ online)))
        (λ o ne. kept o);
  only = λ name c.
      each-assign
        (λ c s.
          lookup name r.users ≡ some c → (s.is_online ≡ true) × (name ≡ s.name) × (c < r.next))
        r.sessions client s
        (λ found.
          let (online, e, below) = g.only name client found in
          (same ∙ online, e ∙ sym same_name, below))
        (λ o ne. g.only name o) c;
}
  where
    kept :
        (o : ℕ)
        → (r.sessions o).is_online ≡ true
        → (lookup (r.sessions o).name r.users ≡ some o)
          ⊎ Rival (assign r.sessions client s) r.next o (r.sessions o).name
    kept o online = elim (g.listed o online) [
      | inl found ↦ inl found
      | inr rival ↦ inr (
          Rival-assign r.sessions r.next client o s (r.sessions o).name (λ h. (stays h, same_name))
            rival)
    ]

pub IsRegister-spawn :
    (r : Room)
    → IsRegister r.users r.sessions r.next
    → IsRegister r.users (assign r.sessions r.next connected) (suc r.next)
IsRegister-spawn r g = record {
  each =
      each-assign (λ _. IsSession) r.sessions r.next connected IsSession-connected
        (λ o ne. g.each o);
  sorted = g.sorted;
  listed =
      each-assign
        (λ c s.
          s.is_online ≡ true
          → (lookup s.name r.users ≡ some c)
            ⊎ Rival (assign r.sessions r.next connected) (suc r.next) c s.name)
        r.sessions r.next connected (λ online. cc)
        (λ o ne online. elim (g.listed o online) [
          | inl found ↦ inl found
          | inr rival ↦
              let now : assign r.sessions r.next connected rival.rival ≡ r.sessions rival.rival =
                assign_ne r.sessions r.next connected rival.rival
                  (λ e. omega (arith, e, rival.below)) in
              inr (record {
                rival = rival.rival;
                differs = rival.differs;
                below = omega (arith, rival.below);
                same_name = ap (λ s. s.name) now ∙ rival.same_name;
                registered = subst Registered (sym now) rival.registered;
              })
        ]);
  only = λ name c.
      each-assign
        (λ c s.
          lookup name r.users ≡ some c → (s.is_online ≡ true) × (name ≡ s.name) × (c < suc r.next))
        r.sessions r.next connected
        (λ found.
          let (online, e, below) = g.only name r.next found in absurd (omega (arith, below)))
        (λ o ne found.
          let (online, e, below) = g.only name o found in (online, e, omega (arith, below)))
        c;
}

-- What a thread that gets a message becomes.
pub hear-lem :
    (heard : Heard) (s : Session)
    → IsSession s
    → listens s ≡ true
    → IsSession (hear heard s)
      × ((hear heard s).is_online ≡ s.is_online)
      × ((hear heard s).name ≡ s.name)
      × ((hear heard s).closes ≡ s.closes)
      × (Registered s → Registered (hear heard s))
unfolding hear
hear-lem heard s is l = go s.phase refl
  where
    has_ended_count : Phase → ℕ
    has_ended_count p = on (has_ended p)

    at : (p : Phase) → s.phase ≡ p → listens s ≡ listens (record s { phase = p })
    at p e = ap (λ x. listens (record s { phase = x })) e

    go :
        (p : Phase)
        → s.phase ≡ p
        → IsSession (hear heard s)
          × ((hear heard s).is_online ≡ s.is_online)
          × ((hear heard s).name ≡ s.name)
          × ((hear heard s).closes ≡ s.closes)
          × (Registered s → Registered (hear heard s))
    go naming e =
        rw (e, hear)
          (
            omega (
              arith,
              is.closed,
              is.may,
              is.must,
              is.tried,
              is.apart,
              ap has_ended_count e,
              ap may_be_online e,
              ap has_tried e,
            ),
            refl,
            refl,
            refl,
            λ h. absurd (omega (arith, h.0, ap has_tried e)),
          )
    go looping e =
        let online : s.is_online ≡ true = sym (at looping e) ∙ l in
        rw (e, hear)
          (
            omega (
              arith,
              is.closed,
              is.may,
              is.tried,
              is.apart,
              ap on online,
              ap has_ended_count e,
              ap may_be_online e,
              ap has_tried e,
            ),
            refl,
            refl,
            refl,
            λ h. omega (arith, h.1),
          )
    go greeting e = cc (l, at greeting e)
    go (named h) e = cc (l, at (named h) e)
    go registering e = cc (l, at registering e)
    go joining e = cc (l, at joining e)
    go inserting e = cc (l, at inserting e)
    go (telling m p a) e = cc (l, at (telling m p a) e)
    go (hearing h) e = cc (l, at (hearing h) e)
    go leaving e = cc (l, at leaving e)
    go closing e = cc (l, at closing e)
    go returned e = cc (l, at returned e)
    go deleted e = cc (l, at deleted e)
