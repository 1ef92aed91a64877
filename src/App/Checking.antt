-- ===== src/App/Checking.antt =====
-- The checks of internal/wan and internal/monitor, as internal/app makes them, keep what the dials keep.
use pia_tun.Base.{ℕ, zero, suc, ◌-◌, leb, Bool, true, false, if◌then◌else◌}
use pia_tun.Firewall.Os.{Os}
use pia_tun.Monitor.Checks.{
  Config, Outcome, dial_timeout, check_hosts, after_check, in_window, rapid_from,
  perform_rapid_checks, check_connectivity, unless_cancelled, perform_check,
}
use pia_tun.Wan.{
  Outcome as Waiting, check as check_wan, after_check as after_check_wan, after_sleep, wait_from,
  wait_for_up,
}
use pia_tun.App.Outside.{Outside}
use pia_tun.App.Parts.{OutsideKeeps}

module _ (os : Os) (out : Outside os) (P : os.World → Type 0) (keeps : OutsideKeeps out P) where
  open out use {probe, dialer}

  pub check_wan-keeps : (w : os.World) → P w → P (check_wan dialer w).1
  unfolding check_wan
  check_wan-keeps w p = (keeps.dial_all _).after w p

  after_check-keeps :
      (again : os.World → Waiting os.World) (r : Bool × os.World)
      → ((w : os.World) → P w → P (again w).1)
      → P r.1
      → P (after_check_wan dialer again r).1
  after_check-keeps again (true, w) h p = p
  after_check-keeps again (false, w) h p = h w p

  after_sleep-keeps :
      (again : os.World → Waiting os.World) (r : Bool × os.World)
      → ((w : os.World) → P w → P (again w).1)
      → P r.1
      → P (after_sleep dialer (check_wan dialer) again r).1
  after_sleep-keeps again (true, w) h p = p
  after_sleep-keeps again (false, w) h p = after_check-keeps again _ h (check_wan-keeps w p)

  wait_from-keeps : (rounds : ℕ) (w : os.World) → P w → P (wait_from dialer rounds w).1
  unfolding wait_from
  wait_from-keeps zero w p = p
  wait_from-keeps (suc rounds) w p =
      after_sleep-keeps (wait_from dialer rounds) _ (wait_from-keeps rounds)
        (keeps.sleep_second.after w p)

  pub wait_for_up-keeps : (rounds : ℕ) (w : os.World) → P w → P (wait_for_up dialer rounds w).1
  unfolding wait_for_up
  wait_for_up-keeps rounds w p =
      after_check-keeps (wait_from dialer rounds) _ (wait_from-keeps rounds) (check_wan-keeps w p)

  -- The checks of the monitor.
  module _ (cfg : Config) where
    if-keeps : (b : Bool) (x y : Outcome os.World) → P x.1 → P y.1 → P (if b then x else y).1
    if-keeps true x y p q = p
    if-keeps false x y p q = q

    checked-keeps :
        (again : os.World → Outcome os.World) (start : ℕ) (b : Bool) (r : ℕ × os.World)
        → ((w : os.World) → P w → P (again w).1)
        → P r.1
        → P (after_check probe cfg again start b r).1
    checked-keeps again start true (t, w) h p = p
    checked-keeps again start false (t, w) h p =
        if-keeps (leb cfg.failure_window (t - start)) _ _ p (h w p)

    check_connectivity-keeps :
        (timeout : ℕ) (w : os.World) → P w → P (check_connectivity probe cfg timeout w).1
    unfolding check_connectivity
    check_connectivity-keeps timeout w p = (keeps.dials timeout check_hosts).after w p

    in_window-keeps :
        (again : ℕ → os.World → Outcome os.World) (start timeout : ℕ) (r : ℕ × os.World)
        → ((left : ℕ) (w : os.World) → P w → P (again left w).1)
        → P r.1
        → P (in_window probe cfg again start timeout r).1
    in_window-keeps again start timeout (t, w) h p =
        if-keeps (leb cfg.failure_window (t - start)) _ _ p (
          checked-keeps (again _) start _ _ (h _)
            (keeps.now.after _ (check_connectivity-keeps _ w p)))

    rapid_from-keeps :
        (rounds start timeout : ℕ) (w : os.World)
        → P w
        → P (rapid_from probe cfg rounds start timeout w).1
    unfolding rapid_from
    rapid_from-keeps zero start timeout w p = p
    rapid_from-keeps (suc rounds) start timeout w p = if-keeps (probe.cancelled w) _ _ p (
        in_window-keeps (rapid_from probe cfg rounds start) start timeout (probe.now w)
          (rapid_from-keeps rounds start) (keeps.now.after w p))

    pub perform_check-keeps :
        (rounds : ℕ) (w : os.World) → P w → P (perform_check probe cfg rounds w).1
    unfolding perform_check perform_rapid_checks
    perform_check-keeps rounds w p = judged _ (check_connectivity-keeps dial_timeout w p)
      where
        judged : (r : Bool × os.World) → P r.1 → P (unless_cancelled probe cfg rounds r).1
        judged (b, v) q = if-keeps (probe.cancelled v) _ _ q (
            if-keeps b _ _ q
              (rapid_from-keeps rounds (probe.now v).0 dial_timeout _ (keeps.now.after v q)))
