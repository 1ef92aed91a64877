-- ===== src/Vpn/LeavesRules.antt =====
-- What `vpn.Setup` leaves of the firewall's rules.
use pia_tun.Base.{String, List, ℕ, ◌≡◌, refl, sym, subst, M, Keeps}
use pia_tun.Base.Sequences.{bind-Keeps, then-Keeps, attempt-Keeps, pure-Keeps}
use pia_tun.Firewall.Os.{Os, Netfilter, Rules, Spec}
use pia_tun.Firewall.Exemptions.{guarded}
use pia_tun.Firewall.LocalNetworks.{Lans}
use pia_tun.Firewall.Closed.{IsClosed}
use pia_tun.Firewall.KeepsClosed.{Closed}
use pia_tun.Firewall.Policy.{policy}
use pia_tun.Firewall.NeverOpens.{add_exemption-Keeps, add_exemptions-Keeps, remove_exemptions-Keeps}
use pia_tun.Firewall.Guards.{
  Quiet, Reliable, IsReady, guarded-restores, add_exemption-Opens, add_exemptions-Opens,
}
use pia_tun.Host.{Host, HostKeeps}
use pia_tun.Cacher.Cache.{Cached}
use pia_tun.Vpn.Login.{Config}
use pia_tun.Vpn.Setup.{setup}
use pia_tun.Vpn.Steps.{Calm, Bears}
use pia_tun.Vpn.SetupKeeps.{setup-Keeps}

module _ (os : Os) (nf : Netfilter os) (host : Host os.World) (calm : Calm os nf host) where
  -- Where no call of the system outside of internal/firewall touches the rules: with no exemption in
  -- force before, and an iptables that does what it can do, `Setup` leaves every rule of every chain as
  -- it was, whether it succeeds or fails at any step: no exemption is left.
  pub setup-restores :
      (rel : Reliable os nf) (rs : List Spec) (atoi : String → ℕ) (dns : List String) (cfg : Config)
      (c : Cached os.World)
      → IsReady (nf.rules c.world) rs
      → nf.rules (setup os host atoi dns cfg c).1.world ≡ nf.rules c.world
  setup-restores rel rs atoi dns cfg c ready =
      (setup-Keeps os nf host calm (λ w. nf.rules w ≡ t) bears atoi dns cfg).after c refl
    where
      t : Rules
      t = nf.rules c.world

      bears : Bears os nf host (λ w. nf.rules w ≡ t)
      bears = record {
        calls = calm t;
        exemption = λ ip port proto m q.
            guarded-restores os nf rel t rs _ m ready
              (add_exemption-Opens os nf rel t rs ip port proto ready) q;
        exemptions = λ specs m q.
            guarded-restores os nf rel t rs _ m ready
              (add_exemptions-Opens os nf rel t rs specs ready) q;
      }

  -- Whatever a call that leaves the rules alone does, a closed killswitch is closed after it.
  module _ (lans : Lans) where
    abbrev pub Safe : os.World → Type 0
    Safe = Closed os nf (policy lans)

    pub Quiet-Safe : {A : Type 0} {m : M os.World A} → Quiet os nf m → Keeps Safe m
    Quiet-Safe q = record {
      after = λ w p. subst (IsClosed (policy lans)) (sym ((q (nf.rules w)).after w refl)) p;
    }

    pub calls-Safe : HostKeeps host Safe
    calls-Safe = record {
      send = λ r. Quiet-Safe (λ t. (calm t).send r);
      get_cert_pool = Quiet-Safe (λ t. (calm t).get_cert_pool);
      run = λ args. Quiet-Safe (λ t. (calm t).run args);
      output = λ input args. Quiet-Safe (λ t. (calm t).output input args);
      start = λ args. Quiet-Safe (λ t. (calm t).start args);
      stat = λ file. Quiet-Safe (λ t. (calm t).stat file);
      mkdir_all = λ file. Quiet-Safe (λ t. (calm t).mkdir_all file);
      chmod = λ file. Quiet-Safe (λ t. (calm t).chmod file);
      write_file = λ file content. Quiet-Safe (λ t. (calm t).write_file file content);
      remove_file = λ file. Quiet-Safe (λ t. (calm t).remove_file file);
      now = Quiet-Safe (λ t. (calm t).now);
      sleep = λ time. Quiet-Safe (λ t. (calm t).sleep time);
      ctx_err = Quiet-Safe (λ t. (calm t).ctx_err);
      look_up = λ server names. Quiet-Safe (λ t. (calm t).look_up server names);
      look_up_ip4 = λ name. Quiet-Safe (λ t. (calm t).look_up_ip4 name);
      race = λ ips. Quiet-Safe (λ t. (calm t).race ips);
    }

    guarded-Safe :
        {A : Type 0} {add : M os.World (Unit {0})} (m : M os.World A)
        → Keeps Safe add
        → Quiet os nf m
        → Keeps Safe (guarded os add m)
    unfolding guarded
    guarded-Safe m h q = then-Keeps Safe h (
        bind-Keeps Safe (attempt-Keeps Safe (Quiet-Safe q))
          (λ r. then-Keeps Safe (remove_exemptions-Keeps os nf lans) (pure-Keeps Safe r)))

    pub bears-Safe : Bears os nf host Safe
    bears-Safe = record {
      calls = calls-Safe;
      exemption =
          λ ip port proto m q. guarded-Safe m (add_exemption-Keeps os nf lans ip port proto) q;
      exemptions = λ specs m q. guarded-Safe m (add_exemptions-Keeps os nf lans specs) q;
    }

    -- Where no call of the system outside of internal/firewall touches the rules: a closed killswitch is
    -- closed after `vpn.Setup`, whichever calls fail, those of iptables too, and whatever exemptions
    -- were in force before.
    pub connect-IsClosed :
        (atoi : String → ℕ) (dns : List String) (cfg : Config) (c : Cached os.World)
        → IsClosed (policy lans) (nf.rules c.world)
        → IsClosed (policy lans) (nf.rules (setup os host atoi dns cfg c).1.world)
    connect-IsClosed atoi dns cfg c h =
        (setup-Keeps os nf host calm Safe bears-Safe atoi dns cfg).after c h
