-- ===== src/App/ForwardKeeps.antt =====
-- Port forwarding, as internal/app runs it, keeps a closed killswitch.
use pia_tun.Base.{ℕ, String, Bool, true, false, ◌==◌, ◌≡◌, M, Result, ok, err, Keeps, if◌then◌else◌}
use pia_tun.Base.Sequences.{bind-Keeps, then-Keeps, attempt-Keeps, pure-Keeps, fail-Keeps, if-Keeps}
use pia_tun.Base.Outcomes.{OnEither-either, Leaves}
use pia_tun.Firewall.Os.{Os, Netfilter, insert}
use pia_tun.Firewall.Killswitch.{
  Firewall, allow_forwarded_port, remove_forwarded_port, on_world, set_active_port, remove_port,
  in_key, port_spec,
}
use pia_tun.Firewall.Exemptions.{port_insert_pos}
use pia_tun.Firewall.LocalNetworks.{Lans}
use pia_tun.Firewall.Closed.{IsClosed}
use pia_tun.Firewall.KeepsClosed.{Closed}
use pia_tun.Firewall.Policy.{policy}
use pia_tun.Firewall.Methods.{allow_forwarded_port-Keeps, remove_forwarded_port-Keeps}
use pia_tun.Vpn.Steps.{Calm, Bears}
use pia_tun.Portforward.Manager.{Manager, start, tick}
use pia_tun.Portforward.Keeps.{GatewayQuiet}
use pia_tun.Portforward.Ends.{Ports, start-Leaves, tick-Leaves, teardown-Leaves}
use pia_tun.App.Outside.{Config, Outside, Rounds, App, on_manager}
use pia_tun.App.Running.{connection, set_forwarding, forwarded, forward, stop_at}
use pia_tun.App.Up.{Up}
use pia_tun.App.Parts.{OutsideKeeps}
use pia_tun.App.StartingKeeps.{get-Keeps}

module _ (os : Os) (nf : Netfilter os) (lans : Lans) (out : Outside os) (calm : Calm os nf out.host)
    (bears : Bears os nf out.host (Closed os nf (policy lans)))
    (keeps : OutsideKeeps out (Closed os nf (policy lans)))
    (quiet : GatewayQuiet os nf out.host out.gateway) (rounds : Rounds) (cfg : Config) where
  open out use {host, gateway, codec}

  abbrev Safe : os.World → Type 0
  Safe = Closed os nf (policy lans)

  abbrev U : App os.World → Type 0
  U = Up os nf lans

  abbrev Active : Firewall os.World → Type 0
  Active fw = fw.active ≡ true

  on_world-Active : (m : M os.World (Unit {0})) → Keeps Active (on_world os m)
  on_world-Active m = record { after = λ fw p. p }

  set_active_port-Active : (port : ℕ) → Keeps Active (set_active_port os port)
  set_active_port-Active port = record { after = λ fw p. p }

  remove-Active : Keeps Active (remove_forwarded_port os host.itoa)
  unfolding remove_forwarded_port
  remove-Active = record {
    after = λ fw p.
        (if-Keeps Active (fw.active_port == 0) (pure-Keeps Active tt)
            (on_world-Active (remove_port os host.itoa fw.active_port))).after
          fw p;
  }

  allow-Active : (port : ℕ) → Keeps Active (allow_forwarded_port os host.itoa port)
  unfolding allow_forwarded_port
  allow-Active port = then-Keeps Active remove-Active (
      then-Keeps Active (opens "tcp")
        (then-Keeps Active (opens "udp") (set_active_port-Active port)))
    where
      opens :
          (proto : String)
          → Keeps Active (
              on_world os
                (os.iptables (insert in_key port_insert_pos (port_spec proto (host.itoa port)))))
      opens proto = on_world-Active _

  active_ports :
      Ports os nf host.itoa
        (λ t b _. IsClosed (policy lans) t × (b ≡ true))
        (λ t b _. IsClosed (policy lans) t × (b ≡ true))
  active_ports = record {
    shut = λ t b port h. h;
    allow = λ port fw n h. (
      (allow_forwarded_port-Keeps os nf host.itoa lans port).after fw h.0,
      (allow-Active port).after fw h.1,
    );
    remove = λ fw h. (
      (remove_forwarded_port-Keeps os nf host.itoa lans).after fw h.0,
      remove-Active.after fw h.1,
    );
  }

  abbrev Um : Manager os.World → Type 0
  Um s = Safe s.fw.world × (s.fw.active ≡ true)

  both-Keeps : {m : M (Manager os.World) (Unit {0})} → Leaves Um m (λ _. Um) (λ _. Um) → Keeps Um m
  both-Keeps {m} h = record { after = λ s p. OnEither-either Um (m s) (h.after s p) }

  on_manager-Keeps : {m : M (Manager os.World) (Unit {0})} → Keeps Um m → Keeps U (on_manager m)
  on_manager-Keeps h = record {
    after = λ s p. let q = h.after s.manager (p.0, p.1) in (q.0, q.1, p.2);
  }

  set_forwarding-Keeps : (b : Bool) → Keeps U (set_forwarding os out rounds cfg b)
  set_forwarding-Keeps b = record { after = λ s p. p }

  forwarded-Keeps : (r : Result (Unit {0})) → Keeps U (forwarded os out rounds cfg r)
  forwarded-Keeps (ok u) = set_forwarding-Keeps true
  forwarded-Keeps (err e) = then-Keeps U (set_forwarding-Keeps false) (fail-Keeps U e)

  step-Keeps :
      (s : App os.World)
      → Keeps U (
          on_manager (
            if s.forwarding
            then tick os host gateway codec cfg.pf (connection os out rounds cfg s)
            else start os host gateway codec cfg.pf (connection os out rounds cfg s)))
  step-Keeps s = on_manager-Keeps (
      if-Keeps Um s.forwarding
        (both-Keeps (
          tick-Leaves os nf host gateway codec quiet _ _ active_ports cfg.pf
            (connection os out rounds cfg s) (λ _. Um) (λ e v h. h)))
        (both-Keeps (
          start-Leaves os nf host gateway codec quiet _ _ active_ports cfg.pf
            (connection os out rounds cfg s) (λ _. Um) (λ e v h. h) (λ v h e. h))))

  pub forward-Keeps : Keeps U (forward os out rounds cfg)
  forward-Keeps =
      bind-Keeps U (get-Keeps os nf lans out calm bears keeps rounds cfg)
        (λ s. bind-Keeps U (attempt-Keeps U (step-Keeps s)) forwarded-Keeps)

  pub stop_at-Keeps : (s : App os.World) → Keeps U (stop_at os out rounds cfg s)
  stop_at-Keeps s =
      if-Keeps U s.forwarding
        (then-Keeps U
          (on_manager-Keeps (
            both-Keeps (
              teardown-Leaves os nf host gateway codec quiet _ _ active_ports cfg.pf
                (connection os out rounds cfg s) (λ _. Um) (λ e v h. h))))
          (set_forwarding-Keeps false))
        (pure-Keeps U tt)
