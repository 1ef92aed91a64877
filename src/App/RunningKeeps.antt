-- ===== src/App/RunningKeeps.antt =====
-- The turns of the services of internal/app keep a closed killswitch, and so does the loop of `Run`, which
-- ends with an error or with the mark that tells it to take the killswitch down.
use pia_tun.Base.{
  List, [], ◌∷◌, true, false, ◌≡◌, refl, M, Bool, Result, ok, err, Error, errors_is, err_reconnect,
  Keeps, none, some, str_eq,
}
use pia_tun.Base.Sequences.{
  bind-Keeps, then-Keeps, ignore-Keeps, attempt-Keeps, pure-Keeps, fail-Keeps, if-Keeps,
}
use pia_tun.Base.Outcomes.{OnEither, Leaves, bind-Leaves, fail-Leaves, if-Leaves, Keeps-Leaves}
use pia_tun.Firewall.Os.{Os, Netfilter}
use pia_tun.Firewall.LocalNetworks.{Lans}
use pia_tun.Firewall.KeepsClosed.{Closed}
use pia_tun.Firewall.Policy.{policy}
use pia_tun.Cacher.RefreshKeeps.{tick-Keeps}
use pia_tun.Monitor.Checks.{Outcome}
use pia_tun.Vpn.Steps.{Calm, Bears}
use pia_tun.Portforward.Keeps.{GatewayQuiet}
use pia_tun.App.Outside.{Config, Outside, Rounds, App, world}
use pia_tun.App.Starting.{connect, retry}
use pia_tun.App.Running.{
  Turn, monitors, refreshes, forwards, judged, monitor_check, turn, stop_services, after_turn,
  serve, went_down, after_services, run_services, once_up, wait_for_wan, after_error, after_run,
  set_exited, services_loop, lifetime,
}
use pia_tun.App.Up.{Up, on_system-Keeps, on_cached-Keeps}
use pia_tun.App.Parts.{OutsideKeeps, clear-Keeps}
use pia_tun.App.Checking.{perform_check-keeps}
use pia_tun.App.StartingKeeps.{
  get-Keeps, set_up-Keeps, of_result-Keeps, connect-Keeps, retry-Keeps, waited-keeps,
}
use pia_tun.App.ForwardKeeps.{forward-Keeps, stop_at-Keeps}

module _ (os : Os) (nf : Netfilter os) (lans : Lans) (out : Outside os) (calm : Calm os nf out.host)
    (bears : Bears os nf out.host (Closed os nf (policy lans)))
    (keeps : OutsideKeeps out (Closed os nf (policy lans)))
    (quiet : GatewayQuiet os nf out.host out.gateway) (rounds : Rounds) (cfg : Config) where
  open out use {host, gateway, codec}

  abbrev Safe : os.World → Type 0
  Safe = Closed os nf (policy lans)

  abbrev U : App os.World → Type 0
  U = Up os nf lans

  judged-keeps : (r : Outcome os.World) → Safe r.1 → Safe (judged os out rounds cfg r).1
  judged-keeps (none, w) p = p
  judged-keeps (some (ok u), w) p = p
  judged-keeps (some (err e), w) p = p

  check-Keeps : Keeps Safe (monitor_check os out rounds cfg)
  check-Keeps = record {
    after =
        λ w p. judged-keeps _ (perform_check-keeps os out Safe keeps cfg.monitor rounds.checks w p);
  }

  turn-Keeps : (t : Turn) → Keeps U (turn os out rounds cfg t)
  unfolding turn
  turn-Keeps monitors = on_system-Keeps os nf lans check-Keeps
  turn-Keeps refreshes = ignore-Keeps U (
      on_cached-Keeps os nf lans
        (tick-Keeps os nf host calm Safe bears 3 cfg.vpn.pia_user cfg.vpn.pia_pass))
  turn-Keeps forwards =
      if-Keeps U cfg.pf_enabled (forward-Keeps os nf lans out calm bears keeps quiet rounds cfg)
        (pure-Keeps U tt)

  stop_services-Keeps : Keeps U (stop_services os out rounds cfg)
  stop_services-Keeps =
      bind-Keeps U (get-Keeps os nf lans out calm bears keeps rounds cfg)
        (stop_at-Keeps os nf lans out calm bears keeps quiet rounds cfg)

  after_turn-Keeps :
      (next : M (App os.World) (Unit {0})) (r : Result (Unit {0}))
      → Keeps U next
      → Keeps U (after_turn os out rounds cfg next r)
  after_turn-Keeps next (ok u) h = h
  after_turn-Keeps next (err e) h = then-Keeps U stop_services-Keeps (fail-Keeps U e)

  serve-Keeps : (ts : List Turn) → Keeps U (serve os out rounds cfg ts)
  unfolding serve
  serve-Keeps [] = stop_services-Keeps
  serve-Keeps (t ∷ ts) =
      bind-Keeps U (attempt-Keeps U (turn-Keeps t))
        (λ r. after_turn-Keeps (serve os out rounds cfg ts) r (serve-Keeps ts))

  went_down-Keeps : (r : Result (Unit {0})) → Keeps U (went_down os out rounds cfg r)
  went_down-Keeps r = then-Keeps U (set_up-Keeps os nf lans out calm bears keeps rounds cfg false) (
      then-Keeps U
        (if-Keeps U (str_eq cfg.dns_mode "pia")
          (ignore-Keeps U
            (on_system-Keeps os nf lans (clear-Keeps os nf out calm Safe bears keeps)))
          (pure-Keeps U tt))
        (of_result-Keeps os nf lans out calm bears keeps rounds cfg r))

  run_services-Keeps : (ts : List Turn) → Keeps U (run_services os out rounds cfg ts)
  unfolding run_services
  run_services-Keeps ts = bind-Keeps U (attempt-Keeps U (serve-Keeps ts)) after
    where
      after : (r : Result (Unit {0})) → Keeps U (after_services os out rounds cfg r)
      after r = record {
        after = λ s p.
            (if-Keeps U (out.cancelled (world s)) (pure-Keeps U tt) (went_down-Keeps r)).after s p;
      }

  abbrev pub Exits : Unit {0} → App os.World → Type 0
  Exits _ s = s.exited_cleanly ≡ true

  abbrev StillUp : Error → App os.World → Type 0
  StillUp _ s = U s

  exit-Leaves : Leaves U (set_exited os out rounds cfg) Exits StillUp
  exit-Leaves = record { after = λ s p. refl }

  connects-Leaves : Leaves U (retry os out rounds cfg (connect os out rounds cfg)) (λ _. U) StillUp
  connects-Leaves =
      Keeps-Leaves
        (retry-Keeps os nf lans out calm bears keeps rounds cfg _
          (connect-Keeps os nf lans out calm bears keeps rounds cfg))
        (λ e s p. p)

  once_up-Leaves :
      (r : Bool × App os.World) → U r.1 → OnEither (λ _. U) StillUp (once_up os out rounds cfg r)
  once_up-Leaves (true, s) p = p
  once_up-Leaves (false, s) p = p

  waits-Leaves : Leaves U (wait_for_wan os out rounds cfg) (λ _. U) StillUp
  waits-Leaves = record {
    after = λ s p. once_up-Leaves _ (waited-keeps os nf lans out calm bears keeps rounds cfg s p);
  }

  after_error-Leaves :
      (again : M (App os.World) (Unit {0})) (r : Result (Unit {0}))
      → Leaves U again Exits StillUp
      → Leaves U (after_error os out rounds cfg again r) Exits StillUp
  after_error-Leaves again (ok u) h = exit-Leaves
  after_error-Leaves again (err e) h =
      if-Leaves (errors_is e err_reconnect)
        (bind-Leaves (bind-Leaves waits-Leaves (λ _. connects-Leaves)) (λ _. h))
        (fail-Leaves e Exits (λ s p. p))

  after_run-Leaves :
      (again : M (App os.World) (Unit {0})) (r : Result (Unit {0}))
      → Leaves U again Exits StillUp
      → Leaves U (after_run os out rounds cfg again r) Exits StillUp
  after_run-Leaves again r h = record {
    after = λ s p.
        (if-Leaves (out.cancelled (world s)) exit-Leaves (after_error-Leaves again r h)).after s p;
  }

  services_loop-Leaves :
      (lives : List (List Turn)) → Leaves U (services_loop os out rounds cfg lives) Exits StillUp
  unfolding services_loop
  services_loop-Leaves [] = exit-Leaves
  services_loop-Leaves (ts ∷ lives) =
      bind-Leaves (Keeps-Leaves (attempt-Keeps U (run_services-Keeps ts)) (λ e s p. p)) (λ r.
        after_run-Leaves (services_loop os out rounds cfg lives) r (services_loop-Leaves lives))

  -- `Run` ends, behind `initialize`, with the mark of a clean exit, or with an error and a killswitch
  -- that is closed.
  pub lifetime-Leaves :
      (lives : List (List Turn)) → Leaves U (lifetime os out rounds cfg lives) Exits StillUp
  unfolding lifetime
  lifetime-Leaves lives = bind-Leaves connects-Leaves (λ _. services_loop-Leaves lives)
