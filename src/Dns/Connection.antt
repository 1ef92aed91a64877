-- ===== src/Dns/Connection.antt =====
-- The connection that `forwardDoT` of internal/dns/proxy.go keeps from one query to the next, by what is
-- done on it.
use pia_tun.Base.{
  ℕ, zero, suc, List, [], ◌∷◌, Bool, true, false, Option, none, some, ◌≡◌, refl, ap, M, Result, ok,
  err, Error, ◌>>=◌, ignore, attempt, Keeps, subst,
}
use pia_tun.Base.Outcomes.{
  OnEither, Leaves, bind-Leaves, pure-Leaves, fail-Leaves, ignore-Leaves, attempt-Leaves,
  from-Leaves, if-Leaves, Keeps-Leaves, OnEither-either,
}
use pia_tun.Base.Text.{Bytes}
use pia_tun.Dns.Wire.{
  Event, uses, Wire, next_wire, wire, is_reused, is_ok, dialled, Ready, Failed, Bare, Held,
  Bare-Held, Ready-Held, Held-drop, Bare-drop, Held-sound, Held-fresh, dials-sound,
}
use pia_tun.Dns.Proxy.{
  Tls, Upstream, on_net, load, store, close_upstream, meanwhile, meanwhile_at, step, connection,
  or_drop, exchange, forward_attempts, forward_dot,
}

module _ {W C : Type 0} (tls : Tls W C) where
  abbrev pub Logged : Type 0
  Logged = List Event × W

  -- The calls, with a log of what is done on the connections.
  abbrev pub logged : Tls Logged C
  logged = record {
    dial = λ s. let (r, w) = tls.dial s.1 in (r, (dialled r s.0, w));
    set_deadline = λ c s. let (r, w) = tls.set_deadline c s.1 in (r, (s.0, w));
    write_msg = λ c b s. let (r, w) = tls.write_msg c b s.1 in (r, (uses (is_ok r) ∷ s.0, w));
    read_msg = λ c s. let (r, w) = tls.read_msg c s.1 in (r, (uses (is_ok r) ∷ s.0, w));
    close = λ c s. let (r, w) = tls.close c s.1 in (r, (s.0, w));
  }

  abbrev pub U : Type 0
  U = Upstream Logged C

  abbrev Of : (Wire → Option C → Type 0) → U → Type 0
  Of Q u = Q (wire u.world.0) u.conn

  abbrev pub IsSettled : Result Bytes × U → Type 0
  IsSettled r =
      OnEither (λ _ u. is_reused (wire u.world.0) ≡ false)
        (λ _ u. (is_reused (wire u.world.0) ≡ false) × (u.conn ≡ none)) r

  -- `CloseUpstreams` keeps what does not need a connection.
  module _ {R : Error → U → Type 0} (Q : Wire → Option C → Type 0)
      (dropped : (x : Wire) (o : Option C) → Q x o → Q x none) where
    close-Leaves : (o : Option C) → Leaves (Of Q) (close_upstream logged o) (λ _. Of Q) R
    close-Leaves none = record { after = λ u p. dropped _ _ p }
    close-Leaves (some c) =
        bind-Leaves {Q = λ _. Of Q} {m = store none} (record { after = λ u p. dropped _ _ p })
          (λ _. ignore-Leaves {m = on_net (logged.close c)} (record { after = λ u p. p }))

    meanwhile_at-Leaves : (bs : List Bool) → Leaves (Of Q) (meanwhile_at logged bs) (λ _. Of Q) R
    meanwhile_at-Leaves [] = record { after = λ u p. p }
    meanwhile_at-Leaves (b ∷ bs) = record {
      after = λ u p.
          (if-Leaves b (close-Leaves u.conn) (pure-Leaves tt (λ _. Of Q) (λ v q. q))).after
            (record u { closings = bs }) p;
    }

    step-Leaves :
        {A : Type 0} {m : M U A} {T : A → U → Type 0}
        → Leaves (Of Q) m T R
        → Leaves (Of Q) (step logged m) T R
    step-Leaves h =
        bind-Leaves {m = meanwhile logged}
          (record { after = λ u p. (meanwhile_at-Leaves u.closings).after u p }) (λ _. h)

  -- A call that leaves the connection and the log as they are, and whose error is not looked at.
  ignored-Leaves :
      {R : Error → U → Type 0} (Q : Wire → Option C → Type 0)
      → ((x : Wire) (o : Option C) → Q x o → Q x none)
      → (m : M U (Unit {0})) → Keeps (Of Q) m
      → Leaves (Of Q) (ignore (step logged m)) (λ _. Of Q) R
  ignored-Leaves Q dropped m h = ignore-Leaves (record {
    after = λ u p.
        OnEither-either (Of Q) _
          ((step-Leaves {R = λ _. Of Q} Q dropped (Keeps-Leaves h (λ e v q. q))).after u p);
  })

  abbrev Loaded : Option C → U → Type 0
  Loaded none = Of Bare
  Loaded (some c) = Of Ready

  loaded : (o : Option C) (u : U) → u.conn ≡ o → Of Held u → Loaded o u
  loaded none u q p = (Held-fresh (wire u.world.0) u.conn p, q)
  loaded (some c) u q p = Held-sound (wire u.world.0) c (subst (Held (wire u.world.0)) q p)

  used :
      {A : Type 0} (r : Result A) (u : U)
      → Of Ready u
      → OnEither
          (λ _ v. Of Ready v)
          (λ _ v. Of Failed v)
          (r, record u { world = (uses (is_ok r) ∷ u.world.0, u.world.1) })
  used (ok a) u p = ap (λ x. next_wire x (uses true)) p
  used (err e) u p = ap (λ x. next_wire x (uses false)) p

  write-Leaves :
      (c : C) (query : Bytes)
      → Leaves (Of Ready) (on_net (logged.write_msg c query)) (λ _. Of Ready) (λ _. Of Failed)
  write-Leaves c query = record {
    after = λ u p.
        let r = tls.write_msg c query u.world.1 in
        used r.0 (record u { world = (u.world.0, r.1) }) p;
  }

  read-Leaves :
      (c : C) → Leaves (Of Ready) (on_net (logged.read_msg c)) (λ _. Of Ready) (λ _. Of Failed)
  read-Leaves c = record {
    after = λ u p.
        let r = tls.read_msg c u.world.1 in used r.0 (record u { world = (u.world.0, r.1) }) p;
  }

  exchange-Leaves :
      (c : C) (query : Bytes)
      → Leaves (Of Ready) (exchange logged c query) (λ _. Of Ready) (λ _. Of Failed)
  exchange-Leaves c query =
      bind-Leaves
        (ignored-Leaves Ready (λ x o p. p) (on_net (logged.set_deadline c))
          (record { after = λ u p. p }))
        (λ _.
          bind-Leaves (step-Leaves Ready (λ x o p. p) (write-Leaves c query))
            (λ _. step-Leaves Ready (λ x o p. p) (read-Leaves c)))

  dialled_lem :
      (r : Result C) (u : U)
      → Of Bare u
      → OnEither
          (λ _ v. Of Ready v)
          (λ _ v. Of Bare v)
          (r, record u { world = (dialled r u.world.0, u.world.1) })
  dialled_lem (ok c) u p = dials-sound (wire u.world.0) p.0
  dialled_lem (err e) u p = p

  dial-Leaves : Leaves (Of Bare) (on_net logged.dial) (λ _. Of Ready) (λ _. Of Bare)
  dial-Leaves = record {
    after = λ u p.
        let r = tls.dial u.world.1 in dialled_lem r.0 (record u { world = (u.world.0, r.1) }) p;
  }

  connection-Leaves :
      (o : Option C) → Leaves (Loaded o) (connection logged o) (λ _. Of Ready) (λ _. Of Bare)
  connection-Leaves (some c) = pure-Leaves c (λ _. Of Ready) (λ u p. p)
  connection-Leaves none = bind-Leaves (step-Leaves Bare Bare-drop dial-Leaves) (λ c.
      bind-Leaves (step-Leaves Ready (λ x o p. p) {T = λ _. Of Ready} (record { after = λ u p. p }))
        (λ _. pure-Leaves c (λ _. Of Ready) (λ u p. p)))

  abbrev Attempted : Result Bytes → U → Type 0
  Attempted r u = OnEither (λ _. Of Ready) (λ _. Of Failed) (r, u)

  or_drop-Leaves :
      (c : C) (next : M U Bytes) (r : Result Bytes)
      → Leaves (Of Bare) next (λ _. Of Ready) (λ _. Of Bare)
      → Leaves (Attempted r) (or_drop logged c next r) (λ _. Of Ready) (λ _. Of Bare)
  or_drop-Leaves c next (ok resp) h = pure-Leaves resp (λ _. Of Ready) (λ u p. p)
  or_drop-Leaves c next (err e) h =
      bind-Leaves
        (step-Leaves Failed (λ x o p. p) {m = store none} {T = λ _. Of Bare}
          (record { after = λ u p. (ap is_reused p, refl) }))
        (λ _.
          bind-Leaves
            (ignored-Leaves Bare Bare-drop (on_net (logged.close c)) (record { after = λ u p. p }))
            (λ _. h))

  load-Leaves : Leaves (Of Held) load Loaded (λ _. Of Bare)
  load-Leaves = record { after = λ u p. loaded u.conn u refl p }

  round-Leaves :
      (query : Bytes) (next : M U Bytes)
      → Leaves (Of Bare) next (λ _. Of Ready) (λ _. Of Bare)
      → Leaves
          (Of Held)
          (step logged load >>= λ held. connection logged held >>= λ c.
            attempt (exchange logged c query) >>= or_drop logged c next)
          (λ _. Of Ready)
          (λ _. Of Bare)
  round-Leaves query next h = bind-Leaves (step-Leaves Held Held-drop load-Leaves) (λ o.
      bind-Leaves (connection-Leaves o) (λ c.
        bind-Leaves (attempt-Leaves (λ _. Of Ready) (λ _. Of Failed) (exchange-Leaves c query))
          (λ r. or_drop-Leaves c next r h)))

  forward_attempts-Leaves :
      (left : ℕ) (query : Bytes)
      → Leaves (Of Bare) (forward_attempts logged left query) (λ _. Of Ready) (λ _. Of Bare)
  unfolding forward_attempts
  forward_attempts-Leaves zero query = fail-Leaves [] (λ _. Of Ready) (λ u p. p)
  forward_attempts-Leaves (suc left) query =
      from-Leaves (λ u. Bare-Held (wire u.world.0) u.conn)
        (round-Leaves query (forward_attempts logged left query)
          (forward_attempts-Leaves left query))

  forward_dot-Leaves :
      (query : Bytes) → Leaves (Of Held) (forward_dot logged query) (λ _. Of Ready) (λ _. Of Bare)
  unfolding forward_dot forward_attempts
  forward_dot-Leaves query =
      round-Leaves query (forward_attempts logged 1 query) (forward_attempts-Leaves 1 query)

  -- The upstream behind some queries, from the first of them on.
  abbrev pub asked : List Bytes → U → U
  asked [] u = u
  asked (q ∷ qs) u = asked qs (forward_dot logged q u).1

  abbrev pub unconnected : List Bool → W → U
  unconnected closings w = record { conn = none; closings = closings; world = ([], w) }

  left-Held : (r : Result Bytes × U) → OnEither (λ _. Of Ready) (λ _. Of Bare) r → Of Held r.1
  left-Held (ok b, u) p = Ready-Held (wire u.world.0) u.conn p
  left-Held (err e, u) p = Bare-Held (wire u.world.0) u.conn p

  asked-Held : (qs : List Bytes) (u : U) → Of Held u → Of Held (asked qs u)
  asked-Held [] u p = p
  asked-Held (q ∷ qs) u p =
      asked-Held qs (forward_dot logged q u).1
        (left-Held (forward_dot logged q u) ((forward_dot-Leaves q).after u p))

  settled : (r : Result Bytes × U) → OnEither (λ _. Of Ready) (λ _. Of Bare) r → IsSettled r
  settled (ok b, u) p = ap is_reused p
  settled (err e, u) p = p

  -- Over any queries to an upstream, one after the other, with `CloseUpstreams` between any two steps of
  -- them: once a write or a read has failed, no connection is written to or read from before a dial has
  -- given one; and where `forwardDoT` fails, it leaves no connection.
  pub forward_dot-IsSettled :
      (before : List Bytes) (query : Bytes) (closings : List Bool) (w : W)
      → IsSettled (forward_dot logged query (asked before (unconnected closings w)))
  forward_dot-IsSettled before query closings w =
      let u = asked before (unconnected closings w) in
      settled (forward_dot logged query u)
        ((forward_dot-Leaves query).after u (asked-Held before (unconnected closings w) tt))
