-- ===== src/Monitor/Rapid.antt =====
-- The failure window of internal/monitor.
use pia_tun.Base.{
  String, ℕ, zero, suc, ◌+◌, ◌-◌, ◌≤◌, ◌<◌, leb, List, Bool, true, false, none, some, inl, inr,
  arith, Bool-cases, ok, err,
}
use pia_tun.Monitor.Checks.{
  Config, Probe, Outcome, dial_timeout, check_hosts, any_success, check_connectivity, shorter,
  after_check, checked, in_window, rapid_from, perform_rapid_checks,
}

-- A clock that does not go back, and that each check of the connection moves.
pub record Clocked {W : Type 0} (probe : Probe W) : Type 0 where
  pub at : W → ℕ
  pub reads : (w : W) → (at w ≤ (probe.now w).0) × ((probe.now w).0 ≤ at (probe.now w).1)
  pub dials_take :
      (timeout : ℕ) (hosts : List String) (w : W) → at w < at (probe.dials timeout hosts w).1

module _ {W : Type 0} (probe : Probe W) (cfg : Config) (clock : Clocked probe) where
  open probe use {dials, now, cancelled}
  open clock use {at}

  -- The loop is over, and it found the connection down only when the window had passed.
  abbrev pub IsJudged : ℕ → Outcome W → Type 0
  IsJudged start (none, w) = ⊥
  IsJudged start (some (ok _), w) = Unit
  IsJudged start (some (err e), w) = start + cfg.failure_window ≤ at w

  after_check-IsJudged :
      (again : W → Outcome W) (start : ℕ) (b : Bool) (r : ℕ × W)
      → start ≤ r.0
      → r.0 ≤ at r.1
      → (r.0 < start + cfg.failure_window → IsJudged start (again r.1))
      → IsJudged start (after_check probe cfg again start b r)
  after_check-IsJudged again start true (t, w) s l h = tt
  after_check-IsJudged again start false (t, w) s l h =
      elim (Bool-cases (leb cfg.failure_window (t - start))) [
        | inl over ↦ rw over (ground arith)
        | inr open_still ↦ rw open_still (h (ground arith))
      ]

  in_window-IsJudged :
      (again : ℕ → W → Outcome W) (start timeout : ℕ) (r : ℕ × W)
      → start ≤ r.0
      → r.0 ≤ at r.1
      → ((n t : ℕ) (v : W)
          → r.0 < t
          → t < start + cfg.failure_window
          → t ≤ at v
          → IsJudged start (again n v))
      → IsJudged start (in_window probe cfg again start timeout r)
  unfolding check_connectivity
  in_window-IsJudged again start timeout (t, w) s l h =
      elim (Bool-cases (leb cfg.failure_window (t - start))) [
        | inl over ↦ rw over (ground arith)
        | inr open_still ↦
            rw open_still (judged (shorter probe cfg (cfg.failure_window - (t - start)) timeout))
      ]
    where
      judged :
          (left : ℕ)
          → IsJudged start
              (checked probe cfg (again left) start (check_connectivity probe cfg left w))
      judged left =
          let v = (dials left check_hosts w).1 in
          let later : t < (now v).0 =
            omega (arith, clock.dials_take left check_hosts w, clock.reads v) in
          after_check-IsJudged (again left) start (any_success (dials left check_hosts w).0) (now v)
            (omega (arith, later)) (clock.reads v).1
            (λ e. h left (now v).0 (now v).1 later e (clock.reads v).1)

  rapid_from-IsJudged :
      (rounds start timeout last : ℕ) (w : W)
      → start ≤ last
      → last ≤ at w
      → last ≤ start + cfg.failure_window
      → start + cfg.failure_window < last + rounds
      → IsJudged start (rapid_from probe cfg rounds start timeout w)
  unfolding rapid_from
  rapid_from-IsJudged zero start timeout last w a b c d = absurd (omega arith)
  rapid_from-IsJudged (suc rounds) start timeout last w a b c d = elim (Bool-cases (cancelled w)) [
    | inl stop ↦ rw stop tt
    | inr goes_on ↦ rw goes_on (
        in_window-IsJudged (rapid_from probe cfg rounds start) start timeout (now w)
          (omega (arith, clock.reads w)) (clock.reads w).1
          (λ n t v e f g.
            rapid_from-IsJudged rounds start n t v (omega (arith, clock.reads w)) g (omega arith)
              (omega (arith, clock.reads w))))
  ]

  -- Where the clock does not go back and each check takes some time, the rapid checks end, with a round
  -- for each unit of the failure window and one more, and find the connection down only when the whole
  -- window has passed since they began.
  pub perform_rapid_checks-IsJudged :
      (rounds : ℕ) (w : W)
      → cfg.failure_window < rounds
      → IsJudged (now w).0 (perform_rapid_checks probe cfg rounds w)
  unfolding perform_rapid_checks
  perform_rapid_checks-IsJudged rounds w h =
      rapid_from-IsJudged rounds (now w).0 dial_timeout (now w).0 (now w).1 (omega arith)
        (clock.reads w).1 (omega arith) (omega arith)
