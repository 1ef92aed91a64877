-- ===== src/Monitor/Checks.antt =====
-- internal/monitor/monitor.go: `Run` and the checks that it makes. What is measured for the metrics is
-- left out.
use pia_tun.Base.{
  ℕ, zero, suc, ◌-◌, ◌*◌, leb, ltb, String, List, [], ◌∷◌, ◌++◌, Bool, true, false, Option, none,
  some, if◌then◌else◌, Result, ok, err, err_reconnect,
}
use pia_tun.Cacher.Cache.{nanoseconds}

pub record Config : Type 0 where
  pub interval : ℕ
  pub failure_window : ℕ

-- Dials of all hosts at once, with what they report in the order in which they do; the clock, in
-- nanoseconds; `ctx.Err() != nil`; and the `select` of `Run`: whether the context is done before the next
-- tick.
pub record Probe (W : Type 0) : Type 0 where
  pub dials : (timeout : ℕ) → (hosts : List String) → W → List Bool × W
  pub now : W → ℕ × W
  pub cancelled : W → Bool
  pub next : W → Bool × W

abbrev pub dial_timeout : ℕ
dial_timeout = 3 * nanoseconds

abbrev pub check_hosts : List String
check_hosts = "1.1.1.1:443" ∷ "8.8.8.8:443" ∷ "9.9.9.9:443" ∷ []

-- The loop that waits for the first success among the results.
abbrev pub any_success : List Bool → Bool
any_success [] = false
any_success (r ∷ rs) = let rest = any_success rs in if r then true else rest

-- `none` where the rounds are used up: the loop is not over.
abbrev pub Outcome : Type 0 → Type 0
Outcome W = Option (Result (Unit {0})) × W

module _ {W : Type 0} (probe : Probe W) (cfg : Config) where
  open probe use {dials, now, cancelled, next}

  abbrev pub succeeded : List Bool × W → Bool × W
  succeeded (rs, w) = (any_success rs, w)

  unfoldable pub check_connectivity : ℕ → W → Bool × W
  check_connectivity timeout w = succeeded (dials timeout check_hosts w)

  -- `remaining < t ? remaining : t`
  abbrev pub shorter : ℕ → ℕ → ℕ
  shorter remaining t = if ltb remaining t then remaining else t

  -- The end of a round: the answer of the check, and the time behind it.
  abbrev pub after_check : (W → Outcome W) → ℕ → Bool → ℕ × W → Outcome W
  after_check again start true (t, w) = (some (ok tt), w)
  after_check again start false (t, w) =
      if leb cfg.failure_window (t - start) then (some (err []), w) else again w

  abbrev pub checked : (W → Outcome W) → ℕ → Bool × W → Outcome W
  checked again start (b, w) = after_check again start b (now w)

  -- A round from the time `t`, with the timeout that the rounds before have left.
  abbrev pub in_window : (ℕ → W → Outcome W) → ℕ → ℕ → ℕ × W → Outcome W
  in_window again start timeout (t, w) =
      if leb cfg.failure_window (t - start)
      then (some (err []), w)
      else (let left = shorter (cfg.failure_window - (t - start)) timeout in
          checked (again left) start (check_connectivity left w))

  unfoldable pub rapid_from : ℕ → ℕ → ℕ → W → Outcome W
  rapid_from zero start timeout w = (none, w)
  rapid_from (suc rounds) start timeout w =
      if cancelled w
      then (some (ok tt), w)
      else in_window (rapid_from rounds start) start timeout (now w)

  abbrev pub rapid_at : ℕ → ℕ × W → Outcome W
  rapid_at rounds (start, w) = rapid_from rounds start dial_timeout w

  unfoldable pub perform_rapid_checks : ℕ → W → Outcome W
  perform_rapid_checks rounds w = rapid_at rounds (now w)

  abbrev pub unless_cancelled : ℕ → Bool × W → Outcome W
  unless_cancelled rounds (b, w) =
      if cancelled w
      then (some (ok tt), w)
      else if b
      then (some (ok tt), w)
      else perform_rapid_checks rounds w

  unfoldable pub perform_check : ℕ → W → Outcome W
  perform_check rounds w = unless_cancelled rounds (check_connectivity dial_timeout w)

  -- The rest of `Run` behind a check.
  abbrev pub after_perform : (W → Outcome W) → Outcome W → Outcome W
  after_perform again (none, w) = (none, w)
  after_perform again (some (ok _), w) = again w
  after_perform again (some (err e), w) = (some (err (e ++ (err_reconnect ∷ []))), w)

  abbrev pub unless_done : (W → Outcome W) → Bool × W → Outcome W
  unless_done again (true, w) = (some (ok tt), w)
  unless_done again (false, w) = again w

  -- `Run`: a check at once, and one at each tick.
  unfoldable pub run : ℕ → ℕ → W → Outcome W
  run zero rounds w = (none, w)
  run (suc ticks) rounds w =
      after_perform (λ v. unless_done (run ticks rounds) (next v)) (perform_check rounds w)
