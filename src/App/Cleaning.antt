-- ===== src/App/Cleaning.antt =====
-- `cleanup` of internal/app after a clean exit takes the mark of the killswitch away.
use pia_tun.Base.{ℕ, true, false, ◌≡◌, refl, M, Error, Keeps, ◌>>◌, ignore}
use pia_tun.Base.Sequences.{then-Keeps}
use pia_tun.Base.Outcomes.{OnEither, Leaves, bind-Leaves, ignore-Leaves, ignored-Leaves}
use pia_tun.Firewall.Os.{Os}
use pia_tun.Firewall.Killswitch.{
  Firewall, on_world, cleanup as cleanup_firewall, remove_pia_routes, cleanup_mss_clamping,
  cleanup_bypass_routes,
}
use pia_tun.Firewall.Chains.{chain_defs, cleanup_chains}
use pia_tun.Firewall.Exemptions.{remove_exemptions}
use pia_tun.Firewall.LocalNetworks.{cleanup_local_routes}
use pia_tun.Dns.Resolv.{restore}
use pia_tun.App.Outside.{Config, Outside, Rounds, App, on_fw, on_system}
use pia_tun.App.Running.{take_down, cleanup}

-- `Cleanup` takes the mark away, whichever of its steps fail.
cleanup-marks :
    (os : Os) (fuel : ℕ) (fw : Firewall os.World) → (cleanup_firewall os fuel fw).1.active ≡ false
unfolding cleanup_firewall
cleanup-marks os fuel fw =
    (then-Keeps Unmarked (on (remove_pia_routes os fuel)) (
        then-Keeps Unmarked (on (cleanup_local_routes os fuel)) (
          then-Keeps Unmarked (on (cleanup_mss_clamping os)) (
            then-Keeps Unmarked (on (cleanup_bypass_routes os fuel)) (
              then-Keeps Unmarked (on (remove_exemptions os))
                (on (cleanup_chains os chain_defs))))))).after
      (record fw { active = false }) refl
  where
    Unmarked : Firewall os.World → Type 0
    Unmarked f = f.active ≡ false

    on : (m : M os.World (Unit {0})) → Keeps Unmarked (on_world os m)
    on m = record { after = λ f p. p }

module _ (os : Os) (out : Outside os) (rounds : Rounds) (cfg : Config) where
  open out use {host, disk}

  abbrev pub Unmarked : App os.World → Type 0
  Unmarked s = s.manager.fw.active ≡ false

  abbrev pub Exited : App os.World → Type 0
  Exited s = s.exited_cleanly ≡ true

  takes_down :
      (T : Error → App os.World → Type 0)
      → Leaves Exited
          (ignore (on_fw (cleanup_firewall os rounds.deletions))
            >> ignore (on_system (restore disk)))
          (λ _. Unmarked)
          T
  takes_down T =
      bind-Leaves {Q = λ _. Unmarked}
        (record {
          after = λ s p.
              ignored-Leaves Unmarked T (on_fw (cleanup_firewall os rounds.deletions) s)
                (cleanup-marks os rounds.deletions s.manager.fw);
        })
        (λ _. ignore-Leaves (record { after = λ s p. p }))

  take_down_marks :
      (T : Error → App os.World → Type 0) (s : App os.World)
      → Exited s
      → OnEither (λ _. Unmarked) T (take_down os out rounds cfg s s)
  take_down_marks T s e = rw e ((takes_down T).after _ refl)

  pub cleanup-Leaves :
      (T : Error → App os.World → Type 0)
      → Leaves Exited (cleanup os out rounds cfg) (λ _. Unmarked) T
  unfolding cleanup
  cleanup-Leaves T =
      bind-Leaves {Q = λ _. Exited} (ignore-Leaves (record { after = λ s p. p }))
        (λ _. record { after = take_down_marks T })
