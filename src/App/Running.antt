-- ===== src/App/Running.antt =====
-- internal/app/app.go: `runServices`, `Run` and `cleanup`. The services that run beside each other are a
-- sequence of turns, each of which is one step.
use pia_tun.Base.{
  List, [], ◌∷◌, ◌++◌, Bool, true, false, none, some, str_eq, if◌then◌else◌, M, Result, ok, err,
  errors_is, err_reconnect, ◌>>=◌, ◌>>◌, pure, fail, ignore, attempt,
}
use pia_tun.Firewall.Os.{Os}
use pia_tun.Firewall.Killswitch.{cleanup as cleanup_firewall}
use pia_tun.Cacher.Cache.{tick as refresh}
use pia_tun.Dns.Resolv.{clear, restore}
use pia_tun.Wg.Tunnel.{down}
use pia_tun.Monitor.Checks.{Outcome, perform_check}
use pia_tun.Portforward.Manager.{ConnectionConfig, start, tick, teardown}
use pia_tun.App.Outside.{
  Config, Outside, Rounds, App, on_manager, on_fw, on_cached, on_system, world,
}
use pia_tun.App.Starting.{
  A, get, set_up, of_result, on_world_of, waited, connect, retry, initialize,
}

-- The service that makes a step: the monitor a check, the cacher the refresh of a tick, port forwarding
-- its start or what it does at a tick. The syncer and the proxies touch nothing of this.
pub data Turn : Type 0 where
  monitors refreshes forwards : Turn

module _ (os : Os) (out : Outside os) (rounds : Rounds) (cfg : Config) where
  open os use {World}
  open out use {host, gateway, codec, probe, dialer, disk, cancelled}

  abbrev pub set_forwarding : Bool → A os out rounds cfg (Unit {0})
  set_forwarding b s = (ok tt, record s { forwarding = b })

  abbrev pub set_exited : A os out rounds cfg (Unit {0})
  set_exited s = (ok tt, record s { exited_cleanly = true })

  -- A check that is not over has said nothing. The error of `Run` of the monitor wraps another.
  abbrev pub judged : Outcome World → Result (Unit {0}) × World
  judged (none, w) = (ok tt, w)
  judged (some (ok _), w) = (ok tt, w)
  judged (some (err e), w) = (err (e ++ (err_reconnect ∷ [])), w)

  abbrev pub monitor_check : M World (Unit {0})
  monitor_check w = judged (perform_check probe cfg.monitor rounds.checks w)

  abbrev pub connection : App World → ConnectionConfig
  connection s = record {
    client_ip = s.conn.client_ip;
    server_cn = s.conn.server_cn;
    pf_gateway = s.conn.pf_gateway;
  }

  -- A step of port forwarding that fails has torn it down.
  abbrev pub forwarded : Result (Unit {0}) → A os out rounds cfg (Unit {0})
  forwarded (ok _) = set_forwarding true
  forwarded (err e) = do set_forwarding false; fail e

  abbrev pub forward : A os out rounds cfg (Unit {0})
  forward = do
    s ← get os out rounds cfg
    r ← attempt (
        on_manager (
          if s.forwarding
          then tick os host gateway codec cfg.pf (connection s)
          else start os host gateway codec cfg.pf (connection s)))
    forwarded r

  unfoldable pub turn : Turn → A os out rounds cfg (Unit {0})
  turn monitors = on_system monitor_check
  turn refreshes = ignore (on_cached (refresh host 3 cfg.vpn.pia_user cfg.vpn.pia_pass))
  turn forwards = if cfg.pf_enabled then forward else pure tt

  abbrev pub stop_at : App World → A os out rounds cfg (Unit {0})
  stop_at s =
      if s.forwarding
      then (on_manager (teardown os host gateway codec cfg.pf (connection s))
          >> set_forwarding false)
      else pure tt

  -- Services that still run see that their context is done.
  abbrev pub stop_services : A os out rounds cfg (Unit {0})
  stop_services = do s ← get os out rounds cfg; stop_at s

  abbrev pub after_turn :
      A os out rounds cfg (Unit {0}) → Result (Unit {0}) → A os out rounds cfg (Unit {0})
  after_turn next (ok _) = next
  after_turn next (err e) = do stop_services; fail e

  -- The turns until one fails. After the last one the context of `Run` is cancelled.
  unfoldable pub serve : List Turn → A os out rounds cfg (Unit {0})
  serve [] = stop_services
  serve (t ∷ ts) = do r ← attempt (turn t); after_turn (serve ts) r

  abbrev pub clear_dns : A os out rounds cfg (Unit {0})
  clear_dns = if str_eq cfg.dns_mode "pia" then ignore (on_system (clear disk)) else pure tt

  abbrev pub went_down : Result (Unit {0}) → A os out rounds cfg (Unit {0})
  went_down r = do set_up os out rounds cfg false; clear_dns; of_result os out rounds cfg r

  abbrev pub after_services : Result (Unit {0}) → A os out rounds cfg (Unit {0})
  after_services r s = (if cancelled (world s) then pure tt else went_down r) s

  unfoldable pub run_services : List Turn → A os out rounds cfg (Unit {0})
  run_services ts = do r ← attempt (serve ts); after_services r

  -- A wait that is not over when its rounds are used up counts as failed.
  abbrev pub once_up : Bool × App World → Result (Unit {0}) × App World
  once_up (true, s) = (ok tt, s)
  once_up (false, s) = (err [], s)

  abbrev pub wait_for_wan : A os out rounds cfg (Unit {0})
  wait_for_wan s = once_up (on_world_of os out rounds cfg (waited os out rounds cfg) s)

  abbrev pub after_error :
      A os out rounds cfg (Unit {0}) → Result (Unit {0}) → A os out rounds cfg (Unit {0})
  after_error again (ok _) = set_exited
  after_error again (err e) =
      if errors_is e err_reconnect
      then (wait_for_wan >> retry os out rounds cfg (connect os out rounds cfg) >> again)
      else fail e

  abbrev pub after_run :
      A os out rounds cfg (Unit {0}) → Result (Unit {0}) → A os out rounds cfg (Unit {0})
  after_run again r s = (if cancelled (world s) then set_exited else after_error again r) s

  -- The loop of `Run`, over the turns of one connection after the other. Services that end without an
  -- error do so because the context is cancelled, and so it is behind the last connection.
  unfoldable pub services_loop : List (List Turn) → A os out rounds cfg (Unit {0})
  services_loop [] = set_exited
  services_loop (ts ∷ lives) = do r ← attempt (run_services ts); after_run (services_loop lives) r

  abbrev pub take_down : App World → A os out rounds cfg (Unit {0})
  take_down s =
      if s.exited_cleanly
      then (ignore (on_fw (cleanup_firewall os rounds.deletions))
          >> ignore (on_system (restore disk)))
      else pure tt

  unfoldable pub cleanup : A os out rounds cfg (Unit {0})
  cleanup = do
    ignore (on_system (down host rounds.deletions))
    s ← get os out rounds cfg
    take_down s

  -- What stands between `initialize` and the deferred `cleanup`.
  unfoldable pub lifetime : List (List Turn) → A os out rounds cfg (Unit {0})
  lifetime lives = do retry os out rounds cfg (connect os out rounds cfg); services_loop lives

  abbrev pub deferred : Result (Unit {0}) → A os out rounds cfg (Unit {0})
  deferred r = do cleanup; of_result os out rounds cfg r

  unfoldable pub run : List (List Turn) → A os out rounds cfg (Unit {0})
  run lives = do initialize os out rounds cfg; r ← attempt (lifetime lives); deferred r
