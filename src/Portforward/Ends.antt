-- ===== src/Portforward/Ends.antt =====
-- How `Run` of internal/portforward ends: with the port closed, and an error that asks for a new
-- connection.
use pia_tun.Base.{
  ℕ, zero, suc, ◌+◌, ◌-◌, ◌*◌, ◌==◌, String, [], ◌∷◌, ◌++◌, Bool, true, false, ◌≡◌, refl, M, Result,
  ok, err, Error, err_reconnect, Keeps, fail, pure, ignore, ◌>>=◌, ◌>>◌, attempt, str_eq,
  if◌then◌else◌,
}
use pia_tun.Base.Outcomes.{
  OnEither, Leaves, bind-Leaves, pure-Leaves, fail-Leaves, if-Leaves, ignore-Leaves, attempt-Leaves,
  Keeps-Leaves, from-Leaves,
}
use pia_tun.Firewall.Os.{Os, Netfilter, Rules}
use pia_tun.Firewall.Killswitch.{
  Firewall, remove_pf_route, allow_forwarded_port, remove_forwarded_port,
}
use pia_tun.Firewall.Guards.{Quiet}
use pia_tun.Host.{Host}
use pia_tun.Cacher.Cache.{nanoseconds}
use pia_tun.Portforward.Payload.{Codec, parse_payload}
use pia_tun.Portforward.Client.{Gateway, SignatureResponse, port_bind_duration}
use pia_tun.Portforward.Manager.{
  Config, ConnectionConfig, Manager, on_fw, on_system, put_state, set_bind_time, notify_port,
  no_state, of_result, time, bind_port_with_retry, set_signature, acquire_port, announce_port,
  teardown, or_reconnect, is_due, renew, rebind, start, tick, keepalive, run,
}
use pia_tun.Portforward.Succeeds.{
  OnEither-ok, remove_port_succeeds, remove_route_succeeds, remove_route-Quiet, add_route-Quiet,
}
use pia_tun.Portforward.Keeps.{
  GatewayQuiet, on_system-Keeps, get_signature_with_retry-Keeps, bind_port_with_retry-Keeps,
}

-- A property of the rules and the open port while a port may be open, and one of them when it is
-- closed: what the firewall's methods do to them.
pub record Ports (os : Os) (nf : Netfilter os) (itoa : ℕ → String)
    (Held : Rules → Bool → ℕ → Type 0) (Shut : Rules → Bool → ℕ → Type 0) : Type 0 where
  pub shut : (t : Rules) (b : Bool) (port : ℕ) → Shut t b port → Held t b port
  pub allow :
      (port : ℕ) (fw : Firewall os.World)
      → (port == 0) ≡ false
      → Held (nf.rules fw.world) fw.active fw.active_port
      → let fw' = (allow_forwarded_port os itoa port fw).1 in
        Held (nf.rules fw'.world) fw'.active fw'.active_port
  pub remove :
      (fw : Firewall os.World)
      → Held (nf.rules fw.world) fw.active fw.active_port
      → let fw' = (remove_forwarded_port os itoa fw).1 in
        Shut (nf.rules fw'.world) fw'.active fw'.active_port

module _ (os : Os) (nf : Netfilter os) (host : Host os.World) (gateway : Gateway os.World)
    (codec : Codec) (quiet : GatewayQuiet os nf host gateway)
    (Held Shut : Rules → Bool → ℕ → Type 0) (ports : Ports os nf host.itoa Held Shut) (cfg : Config)
    (conn : ConnectionConfig) (R : Error → Manager os.World → Type 0)
    (reconnects : (e : Error) (s : Manager os.World)
      → Shut (nf.rules s.fw.world) s.fw.active s.fw.active_port
      → R (e ++ (err_reconnect ∷ [])) s) where
  abbrev pub Holds : Manager os.World → Type 0
  Holds s = Held (nf.rules s.fw.world) s.fw.active s.fw.active_port

  abbrev pub IsShut : Manager os.World → Type 0
  IsShut s = Shut (nf.rules s.fw.world) s.fw.active s.fw.active_port

  -- The manager has a port that can be opened.
  abbrev HoldsPort : Manager os.World → Type 0
  HoldsPort s = Holds s × ((s.state.port == 0) ≡ false)

  abbrev Fh : Rules → Bool → ℕ → ℕ → Type 0
  Fh t b a p = Held t b a

  abbrev Fp : Rules → Bool → ℕ → ℕ → Type 0
  Fp t b a p = Held t b a × ((p == 0) ≡ false)

  of_result-Leaves : (r : Result (ℕ × ℕ)) → Leaves Holds (of_result r) (λ _. Holds) (λ _. Holds)
  of_result-Leaves (ok a) = pure-Leaves a (λ _. Holds) (λ s p. p)
  of_result-Leaves (err e) = fail-Leaves e (λ _. Holds) (λ s p. p)

  set_signature-Leaves :
      (resp : SignatureResponse) (p : ℕ × ℕ)
      → Leaves
          (λ s. Holds s × ((p.0 == 0) ≡ false))
          (set_signature os host gateway codec cfg conn resp p)
          (λ _. HoldsPort)
          (λ _. Holds)
  set_signature-Leaves resp (port, t) = record { after = λ s h. h }

  port-Leaves :
      (b : Bool)
      → Leaves Holds (if b then fail [] else pure tt) (λ _ s. Holds s × (b ≡ false)) (λ _. Holds)
  port-Leaves true = record { after = λ s h. h }
  port-Leaves false = record { after = λ s h. (h, refl) }

  acquire_port-Leaves :
      Leaves Holds (acquire_port os host gateway codec cfg conn) (λ _. HoldsPort) (λ _. Holds)
  unfolding acquire_port
  acquire_port-Leaves =
      bind-Leaves
        (Keeps-Leaves (get_signature_with_retry-Keeps os nf host gateway codec quiet Fh cfg conn)
          (λ e s h. h))
        (λ resp. bind-Leaves (of_result-Leaves (parse_payload codec resp.payload)) (λ parsed.
          bind-Leaves (port-Leaves (parsed.0 == 0)) (λ _.
            bind-Leaves (set_signature-Leaves resp parsed) (λ _.
              Keeps-Leaves
                (bind_port_with_retry-Keeps os nf host gateway codec quiet Fp cfg conn resp.payload
                  resp.signature)
                (λ e s h. h.0)))))

  allow-Keeps :
      (port : ℕ)
      → (port == 0) ≡ false
      → Keeps Holds (on_fw (allow_forwarded_port os host.itoa port))
  allow-Keeps port n = record { after = λ s h. ports.allow port s.fw n h }

  announced :
      (s : Manager os.World)
      → (s.state.port == 0) ≡ false
      → Leaves Holds
          (ignore (on_fw (allow_forwarded_port os host.itoa s.state.port))
            >> (ignore (on_system (gateway.write_port_file cfg.port_file (host.itoa s.state.port)))
                >> notify_port s.state.port))
          (λ _. Holds)
          R
  unfolding notify_port
  announced s n = bind-Leaves (ignore-Leaves (allow-Keeps s.state.port n)) (λ _.
      bind-Leaves
        (ignore-Leaves (
          on_system-Keeps os nf host gateway codec quiet Fh
            (quiet.write_port_file cfg.port_file (host.itoa s.state.port))))
        (λ _. record { after = λ v h. h }))

  announce_port-Leaves :
      Leaves HoldsPort (announce_port os host gateway codec cfg conn) (λ _. Holds) R
  unfolding announce_port
  announce_port-Leaves = record { after = λ s h. (announced s h.1).after s h.0 }

  pub teardown-Leaves : Leaves Holds (teardown os host gateway codec cfg conn) (λ _. IsShut) R
  unfolding teardown
  teardown-Leaves = bind-Leaves {Q = λ _. Holds} route (λ _. port)
    where
      route : Leaves Holds (on_system (remove_pf_route os conn.pf_gateway)) (λ _. Holds) R
      route = record {
        after = λ s h. OnEither-ok Holds R _ (remove_route_succeeds os conn.pf_gateway s.fw.world) (
            (on_system-Keeps os nf host gateway codec quiet Fh
                (remove_route-Quiet os nf conn.pf_gateway)).after
              s h);
      }

      port : Leaves Holds (on_fw (remove_forwarded_port os host.itoa)) (λ _. IsShut) R
      port = record {
        after = λ s h.
            OnEither-ok IsShut R _ (remove_port_succeeds os host.itoa s.fw) (ports.remove s.fw h);
      }

  or_reconnect-Leaves :
      (P : Manager os.World → Type 0) (r : Result (Unit {0})) (s : Manager os.World)
      → OnEither (λ _. P) (λ _. Holds) (r, s)
      → OnEither (λ _. P) R (or_reconnect os host gateway codec cfg conn r s)
  or_reconnect-Leaves P (ok u) s h = h
  or_reconnect-Leaves P (err e) s h =
      (bind-Leaves teardown-Leaves
          (λ _. fail-Leaves (e ++ (err_reconnect ∷ [])) (λ _. P) (reconnects e))).after
        s h

  renew-Leaves : Leaves Holds (renew os host gateway codec cfg conn) (λ _. Holds) R
  renew-Leaves =
      bind-Leaves (attempt-Leaves (λ _. HoldsPort) (λ _. Holds) acquire_port-Leaves) (λ r.
        bind-Leaves {Q = λ _. HoldsPort} (record { after = or_reconnect-Leaves HoldsPort r })
          (λ _. announce_port-Leaves))

  rebind-Leaves : Leaves Holds (rebind os host gateway codec cfg conn) (λ _. Holds) R
  rebind-Leaves = record { after = λ s. (again s).after s }
    where
      again :
          (s : Manager os.World)
          → Leaves Holds
              (attempt (
                  bind_port_with_retry os host gateway codec cfg conn s.state.payload
                    s.state.signature)
                >>= or_reconnect os host gateway codec cfg conn)
              (λ _. Holds)
              R
      again s =
          bind-Leaves {f = or_reconnect os host gateway codec cfg conn}
            (attempt-Leaves (λ _. Holds) (λ _. Holds)
              (Keeps-Leaves
                (bind_port_with_retry-Keeps os nf host gateway codec quiet Fh cfg conn
                  s.state.payload s.state.signature)
                (λ e v h. h)))
            (λ r. record { after = or_reconnect-Leaves Holds r })

  -- At a tick the port is acquired again or bound again: an error of `R`, or it may stay open.
  pub tick-Leaves : Leaves Holds (tick os host gateway codec cfg conn) (λ _. Holds) R
  unfolding tick
  tick-Leaves = record { after = λ s. (at s).after s }
    where
      at :
          (s : Manager os.World)
          → Leaves Holds
              (time os host gateway codec >>= λ t.
                if is_due os host gateway codec cfg conn s.state t
                then renew os host gateway codec cfg conn
                else rebind os host gateway codec cfg conn)
              (λ _. Holds)
              R
      at s =
          bind-Leaves {Q = λ _. Holds} {m = time os host gateway codec}
            (record { after = (on_system-Keeps os nf host gateway codec quiet Fh quiet.now).after })
            (λ t.
              if-Leaves (is_due os host gateway codec cfg conn s.state t) renew-Leaves
                rebind-Leaves)

  pub keepalive-Leaves :
      (ticks : ℕ) → Leaves Holds (keepalive os host gateway codec cfg conn ticks) (λ _. IsShut) R
  unfolding keepalive
  keepalive-Leaves zero = teardown-Leaves
  keepalive-Leaves (suc ticks) = bind-Leaves tick-Leaves (λ _. keepalive-Leaves ticks)

  module _ (early : (s : Manager os.World) → IsShut s → (e : Error) → R e s) where
    pub start-Leaves : Leaves IsShut (start os host gateway codec cfg conn) (λ _. Holds) R
    unfolding start
    start-Leaves =
        bind-Leaves {Q = λ _. IsShut}
          (if-Leaves (str_eq conn.pf_gateway "")
            (fail-Leaves [] (λ _. IsShut) (λ s h. early s h []))
            (pure-Leaves tt (λ _. IsShut) (λ s h. h)))
          (λ _. bind-Leaves (shut (add_route-Quiet os nf conn.pf_gateway)) (λ _.
            bind-Leaves (shut quiet.get_cert_pool) (λ _.
              bind-Leaves {Q = λ _. IsShut} {m = put_state no_state} (record { after = λ s h. h })
                (λ _. bind-Leaves {m = time os host gateway codec} (shut quiet.now) (λ t.
                  bind-Leaves {Q = λ _. IsShut}
                    {m = set_bind_time (t + 60 * nanoseconds - port_bind_duration)}
                    (record { after = λ s h. h })
                    (λ _.
                      from-Leaves
                        (λ s. ports.shut (nf.rules s.fw.world) s.fw.active s.fw.active_port)
                        renew-Leaves))))))
      where
        shut :
            {A : Type 0} {m : M os.World A}
            → Quiet os nf m
            → Leaves IsShut (on_system m) (λ _. IsShut) R
        shut q =
            Keeps-Leaves (on_system-Keeps os nf host gateway codec quiet (λ t b a p. Shut t b a) q)
              (λ e s h. early s h e)

    pub run-Leaves :
        (ticks : ℕ) → Leaves IsShut (run os host gateway codec cfg conn ticks) (λ _. IsShut) R
    unfolding run
    run-Leaves ticks = bind-Leaves start-Leaves (λ _. keepalive-Leaves ticks)
