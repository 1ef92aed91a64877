-- ===== src/Portforward/RunCloses.antt =====
-- What `Run` of internal/portforward leaves of the firewall's rules, and how a tick of it fails.
use pia_tun.Base.{ℕ, List, [], ◌∷◌, ◌++◌, true, ◌≡◌, refl, arith, Error, errors_is, err_reconnect}
use pia_tun.Base.Outcomes.{OnEither, OnEither-either}
use pia_tun.Firewall.Os.{Os, Netfilter, Rules, Spec}
use pia_tun.Firewall.Guards.{Reliable}
use pia_tun.Host.{Host}
use pia_tun.Portforward.Payload.{Codec}
use pia_tun.Portforward.Client.{Gateway}
use pia_tun.Portforward.Manager.{Config, ConnectionConfig, Manager, run, tick}
use pia_tun.Portforward.Keeps.{GatewayQuiet}
use pia_tun.Portforward.Ends.{run-Leaves, tick-Leaves}
use pia_tun.Portforward.Closes.{HasNoPort, Held, Shut, ports}

wraps_reconnect : (e : Error) → errors_is (e ++ (err_reconnect ∷ [])) err_reconnect ≡ true
wraps_reconnect [] = refl
wraps_reconnect (s ∷ e) = ground (arith, wraps_reconnect e)

module _ (os : Os) (nf : Netfilter os) (host : Host os.World) (gateway : Gateway os.World)
    (codec : Codec) (quiet : GatewayQuiet os nf host gateway) where
  -- Where no other call of the system touches the rules:
  -- with an iptables that does what it can do, and no port open at first, `Run` of port forwarding
  -- leaves every rule of every chain as it was, whether it is shut down after any number of ticks or
  -- fails at any step: no port stays open.
  pub run-closes_port :
      (rel : Reliable os nf) (t : Rules) (x y : Spec) (rest : List Spec)
      → HasNoPort t x y rest
      → (cfg : Config) (conn : ConnectionConfig) (ticks : ℕ) (s : Manager os.World)
      → nf.rules s.fw.world ≡ t
      → nf.rules (run os host gateway codec cfg conn ticks s).1.fw.world ≡ t
  run-closes_port rel t x y rest base cfg conn ticks s e =
      OnEither-either (λ v. nf.rules v.fw.world ≡ t) _
        ((run-Leaves os nf host gateway codec quiet (Held os nf rel t x y rest base host.itoa)
            (Shut os nf rel t x y rest base host.itoa) (ports os nf rel t x y rest base host.itoa)
            cfg conn (λ _ v. nf.rules v.fw.world ≡ t) (λ _ v h. h) (λ v h _. h) ticks).after
          s e)

  -- Where no other call of the system touches the rules:
  -- with an iptables that does what it can do, a refresh of the forwarded port from a state where the
  -- port that is noted or none is open leaves such a state, or fails with an error that asks for a new
  -- connection and leaves no port open.
  pub tick_reconnects :
      (rel : Reliable os nf) (t : Rules) (x y : Spec) (rest : List Spec)
      (base : HasNoPort t x y rest) (cfg : Config) (conn : ConnectionConfig) (s : Manager os.World)
      → Held os nf rel t x y rest base host.itoa (nf.rules s.fw.world) s.fw.active s.fw.active_port
      → OnEither
          (λ _ v.
            Held os nf rel t x y rest base host.itoa
              (nf.rules v.fw.world)
              v.fw.active
              v.fw.active_port)
          (λ e v. (errors_is e err_reconnect ≡ true) × (nf.rules v.fw.world ≡ t))
          (tick os host gateway codec cfg conn s)
  tick_reconnects rel t x y rest base cfg conn s h =
      (tick-Leaves os nf host gateway codec quiet (Held os nf rel t x y rest base host.itoa)
          (Shut os nf rel t x y rest base host.itoa) (ports os nf rel t x y rest base host.itoa) cfg
          conn (λ e v. (errors_is e err_reconnect ≡ true) × (nf.rules v.fw.world ≡ t))
          (λ e v k. (wraps_reconnect e, k))).after
        s h
