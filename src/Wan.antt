-- ===== src/Wan.antt =====
-- internal/wan/wan.go: whether there is a connection outside of the tunnel.
use pia_tun.Base.{
  ℕ, zero, suc, String, List, [], ◌++◌, map, Bool, true, false, Option, none, some, Result, ok, err,
}
use pia_tun.Base.Text.{chars, of_chars}
use pia_tun.Firewall.Killswitch.{wan_check_ips}
use pia_tun.Monitor.Checks.{any_success}

-- Dials of all addresses at once, with what they report in the order in which they do, and a second of
-- sleep, which ends early with true if the context is cancelled.
pub record Dialer (W : Type 0) : Type 0 where
  pub dial_all : List String → W → List Bool × W
  pub sleep_second : W → Bool × W

-- `none` where the rounds are used up: the wait is not over.
abbrev pub Outcome : Type 0 → Type 0
Outcome W = Option (Result (Unit {0})) × W

module _ {W : Type 0} (dialer : Dialer W) where
  open dialer use {dial_all, sleep_second}

  -- `net.JoinHostPort(t, "13")` of an IPv4 address.
  abbrev pub daytime_addr : String → String
  daytime_addr ip = of_chars (chars ip ++ chars ":13")

  abbrev pub reported : List Bool × W → Bool × W
  reported (rs, w) = (any_success rs, w)

  unfoldable pub check : W → Bool × W
  check w = reported (dial_all (map daytime_addr wan_check_ips) w)

  abbrev pub after_check : (W → Outcome W) → Bool × W → Outcome W
  after_check again (true, w) = (some (ok tt), w)
  after_check again (false, w) = again w

  abbrev pub after_sleep : (W → Bool × W) → (W → Outcome W) → Bool × W → Outcome W
  after_sleep checks again (true, w) = (some (err []), w)
  after_sleep checks again (false, w) = after_check again (checks w)

  -- The loop of `WaitForUp`, behind its first check.
  unfoldable pub wait_from : ℕ → W → Outcome W
  wait_from zero w = (none, w)
  wait_from (suc rounds) w = after_sleep check (wait_from rounds) (sleep_second w)

  unfoldable pub wait_for_up : ℕ → W → Outcome W
  wait_for_up rounds w = after_check (wait_from rounds) (check w)
