-- ===== src/Firewall/SetupCloses.antt =====
-- `Setup` succeeds only with the killswitch closed, and none of the methods opens it again.
use pia_tun.Base.{
  ℕ, zero, suc, String, List, [], ◌∷◌, Bool, true, false, ◌≡◌, refl, Result, ok, err, Keeps,
  Ensures, OnOk, M, ◌>>◌, continue, pure, if◌then◌else◌, arith,
}
use pia_tun.Base.Sequences.{
  bind-Ensures, Keeps-Ensures, from-Ensures, pure-Ensures, bind-Keeps, attempt-Keeps, pure-Keeps,
  fail-Keeps, if-Keeps, OnOk-map,
}
use pia_tun.Base.Text.{Bytes}
use pia_tun.Firewall.Os.{Os, Netfilter, Key, Family, Chain}
use pia_tun.Firewall.Chains.{
  check_chains_present, verify_attempts, verify_killswitch, chain_has_drop, chain_is_in_parent,
  listed, and_then, setup_baseline_chains, established, loopback, is_drop_line, is_jump_line,
}
use pia_tun.Firewall.LocalNetworks.{
  Lans, no_lans, setup_networks, setup_local_networks, resolve_local_networks,
}
use pia_tun.Firewall.Killswitch.{
  KillswitchConfig, Firewall, build_killswitch, setup_rest, local_networks, setup, set_active,
}
use pia_tun.Firewall.Closed.{IsClosed}
use pia_tun.Firewall.KeepsClosed.{Closed, list-Keeps}
use pia_tun.Firewall.Policy.{policy}
use pia_tun.Firewall.NeverOpens.{
  setup_local_rules-Keeps, setup_local_routes-Keeps, resolve_local_networks-Keeps,
  setup_bypass-Keeps, add_vpn-Keeps, icmpv6_rules-Keeps, setup_mss_clamping-Keeps,
}
use pia_tun.Firewall.Baseline.{AllBase, setup_baseline_chains-AllBase}

module _ (os : Os) (nf : Netfilter os) where
  module _ (lans : Lans) where
    abbrev Safe : os.World → Type 0
    Safe = Closed os nf (policy lans)

    AllBase-IsClosed : (w : os.World) → AllBase os nf (nf.rules w) → Safe w
    AllBase-IsClosed w (a, b, c, d) = record {
      in4 = (established ∷ loopback "-i" ∷ [], a.rules, omega arith, refl);
      out4 = (established ∷ loopback "-o" ∷ [], b.rules, omega arith, refl);
      in6 = (established ∷ loopback "-i" ∷ [], c.rules, omega arith, refl);
      out6 = (established ∷ loopback "-o" ∷ [], d.rules, omega arith, refl);
      in4_wired = a.wired;
      out4_wired = b.wired;
      in6_wired = c.wired;
      out6_wired = d.wired;
    }

    listed-Keeps : (t : Bytes → Bool) (r : Result (List Bytes)) → Keeps Safe (listed os t r)
    listed-Keeps t (ok ls) = pure-Keeps _ _
    listed-Keeps t (err e) = pure-Keeps _ _

    and_then-Keeps :
        {a b : M os.World Bool} → Keeps Safe a → Keeps Safe b → Keeps Safe (and_then os a b)
    and_then-Keeps h k = bind-Keeps _ h (λ x. if-Keeps _ x k (pure-Keeps _ false))

    drop-Keeps : (k : Key) → Keeps Safe (chain_has_drop os k)
    unfolding chain_has_drop
    drop-Keeps k =
        bind-Keeps _ (attempt-Keeps _ (list-Keeps os nf (policy lans) k))
          (listed-Keeps is_drop_line)

    parent-Keeps : (f : Family) (p c : Chain) → Keeps Safe (chain_is_in_parent os f p c)
    unfolding chain_is_in_parent
    parent-Keeps f p c =
        bind-Keeps _ (attempt-Keeps _ (list-Keeps os nf (policy lans) _))
          (listed-Keeps (is_jump_line c))

    check_chains_present-Keeps : Keeps Safe (check_chains_present os)
    unfolding check_chains_present
    check_chains_present-Keeps = and_then-Keeps (drop-Keeps _) (
        and_then-Keeps (parent-Keeps _ _ _) (
          and_then-Keeps (drop-Keeps _) (
            and_then-Keeps (parent-Keeps _ _ _) (
              and_then-Keeps (drop-Keeps _) (
                and_then-Keeps (parent-Keeps _ _ _)
                  (and_then-Keeps (drop-Keeps _) (parent-Keeps _ _ _)))))))

    verify-Keeps : (n : ℕ) → Keeps Safe (verify_attempts os n)
    unfolding verify_attempts
    verify-Keeps zero = fail-Keeps _ []
    verify-Keeps (suc n) =
        bind-Keeps _ check_chains_present-Keeps
          (λ present. if-Keeps _ present (pure-Keeps _ tt) (verify-Keeps n))

    kept :
        {m : M os.World (Unit {0})}
        → Keeps Safe m
        → {B : Type 0} {k : M os.World B} {Q : B → os.World → Type 0} → Ensures Safe k Q
        → Ensures Safe (m >> k) Q
    kept h k = bind-Ensures (Keeps-Ensures h) (λ _. k)

    -- What follows the local networks in `Setup`.
    setup_rest-Ensures :
        (fuel : ℕ) (v6 : Bool)
        → Ensures Safe (setup_rest os fuel v6 lans) (λ l w. Closed os nf (policy l) w)
    unfolding setup_rest verify_killswitch
    setup_rest-Ensures fuel v6 = kept (add_vpn-Keeps os nf lans v6) (
        kept (setup_bypass-Keeps os nf lans fuel) (
          kept (if-Keeps _ v6 (icmpv6_rules-Keeps os nf lans) (pure-Keeps _ tt)) (
            kept (setup_mss_clamping-Keeps os nf lans v6)
              (kept (verify-Keeps 4) (pure-Ensures lans _ (λ w p. p))))))

    setup_networks-Ensures :
        (fuel : ℕ) → Ensures Safe (setup_networks os fuel lans) (λ l w. Closed os nf (policy l) w)
    unfolding setup_networks
    setup_networks-Ensures fuel =
        kept (setup_local_routes-Keeps os nf lans fuel)
          (kept (setup_local_rules-Keeps os nf lans) (pure-Ensures lans _ (λ w p. p)))

  -- The killswitch is closed whatever the local networks are: there are none in it yet.
  abbrev ClosedAll : os.World → Type 0
  ClosedAll w = (lans : Lans) → Safe lans w

  resolve-Ensures :
      (is_cidr : String → Bool) (setting : String)
      → Ensures ClosedAll (resolve_local_networks os is_cidr setting) (λ _ w. ClosedAll w)
  resolve-Ensures is_cidr setting = Keeps-Ensures (record {
    after = λ w h lans. (resolve_local_networks-Keeps os nf lans is_cidr setting).after w (h lans);
  })

  setup_local_networks-Ensures :
      (is_cidr : String → Bool) (fuel : ℕ) (setting : String)
      → Ensures ClosedAll (setup_local_networks os is_cidr fuel setting) (λ lans w. Safe lans w)
  unfolding setup_local_networks
  setup_local_networks-Ensures is_cidr fuel setting =
      bind-Ensures (resolve-Ensures is_cidr setting)
        (λ lans. from-Ensures (λ w h. h lans) (setup_networks-Ensures lans fuel))

  baseline-Ensures : Ensures (λ _. Unit {0}) (setup_baseline_chains os) (λ _ w. ClosedAll w)
  baseline-Ensures = record {
    after = λ w p.
        OnOk-map _ _ (setup_baseline_chains os w) (λ _ w' b lans. AllBase-IsClosed lans w' b)
          ((setup_baseline_chains-AllBase os nf).after w tt);
  }

  no_networks-Ensures : Ensures ClosedAll (pure no_lans) (λ lans w. Safe lans w)
  no_networks-Ensures = pure-Ensures no_lans (λ lans w. Safe lans w) (λ w h. h no_lans)

  if-Ensures :
      {A : Type 0} {P : os.World → Type 0} {Q : A → os.World → Type 0} (b : Bool)
      {m n : M os.World A}
      → Ensures P m Q
      → Ensures P n Q
      → Ensures P (if b then m else n) Q
  if-Ensures true h k = h
  if-Ensures false h k = k

  local_networks-Ensures :
      (is_cidr : String → Bool) (fuel : ℕ) (setting : String)
      → Ensures ClosedAll (local_networks os is_cidr fuel setting) (λ lans w. Safe lans w)
  unfolding local_networks
  local_networks-Ensures is_cidr fuel setting =
      if-Ensures _ no_networks-Ensures (setup_local_networks-Ensures is_cidr fuel setting)

  build_killswitch-Ensures :
      (is_cidr : String → Bool) (fuel : ℕ) (cfg : KillswitchConfig)
      → Ensures (λ _. Unit {0}) (build_killswitch os is_cidr fuel cfg) (λ lans w. Safe lans w)
  unfolding build_killswitch
  build_killswitch-Ensures is_cidr fuel cfg = bind-Ensures baseline-Ensures (λ _.
      bind-Ensures (local_networks-Ensures is_cidr fuel cfg.lans)
        (λ lans. setup_rest-Ensures lans fuel cfg.ipv6_enabled))

  setup_result :
      (r : Result Lans × os.World) (fw : Firewall os.World)
      → OnOk (λ lans w. Safe lans w) r
      → OnOk
          (λ lans fw'. (fw'.active ≡ true) × IsClosed (policy lans) (nf.rules fw'.world))
          (continue (λ lans. set_active os true >> pure lans) (r.0, record fw { world = r.1 }))
  setup_result (ok lans, w) fw h = (refl, h)
  setup_result (err e, w) fw h = tt

  -- If `Setup` succeeds, from any state of the system, then the firewall is marked active and the
  -- killswitch is closed: each of the four chains ends in DROP behind its base rules, has only rules
  -- of the policy for the local networks that it found, and is the first rule of its parent.
  pub setup-IsClosed :
      (is_cidr : String → Bool) (fuel : ℕ) (cfg : KillswitchConfig) (fw : Firewall os.World)
      → OnOk
          (λ lans fw'. (fw'.active ≡ true) × IsClosed (policy lans) (nf.rules fw'.world))
          (setup os is_cidr fuel cfg fw)
  unfolding setup
  setup-IsClosed is_cidr fuel cfg fw =
      setup_result (build_killswitch os is_cidr fuel cfg fw.world) fw
        ((build_killswitch-Ensures is_cidr fuel cfg).after fw.world tt)
