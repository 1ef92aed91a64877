-- ===== src/App/Up.antt =====
-- What internal/app keeps while it runs: the killswitch is closed and marked as active.
use pia_tun.Base.{true, false, ◌≡◌, M, Keeps}
use pia_tun.Firewall.Os.{Os, Netfilter, Rules}
use pia_tun.Firewall.LocalNetworks.{Lans}
use pia_tun.Firewall.KeepsClosed.{Closed}
use pia_tun.Firewall.Policy.{policy}
use pia_tun.Firewall.Guards.{Quiet}
use pia_tun.Cacher.Cache.{Cached}
use pia_tun.Vpn.Steps.{Calm}
use pia_tun.Vpn.LeavesRules.{Quiet-Safe}
use pia_tun.App.Outside.{Outside, App, on_cached, on_system, world}
use pia_tun.App.Parts.{OutsideKeeps}

-- No call of the system touches the rules.
abbrev pub OutsideQuiet : (os : Os) → Netfilter os → Outside os → Type 0
OutsideQuiet os nf out = (t : Rules) → OutsideKeeps out (λ w. nf.rules w ≡ t)

module _ (os : Os) (nf : Netfilter os) (lans : Lans) where
  -- The killswitch is closed and marked as active, and the program has not been told to end.
  abbrev pub Up : App os.World → Type 0
  Up s =
      Closed os nf (policy lans) (world s)
      × (s.manager.fw.active ≡ true)
      × (s.exited_cleanly ≡ false)

  pub on_system-Keeps :
      {A : Type 0} {m : M os.World A}
      → Keeps (Closed os nf (policy lans)) m
      → Keeps Up (on_system m)
  on_system-Keeps h = record { after = λ s p. (h.after (world s) p.0, p.1, p.2) }

  pub on_cached-Keeps :
      {A : Type 0} {m : M (Cached os.World) A}
      → Keeps (λ c. Closed os nf (policy lans) c.world) m
      → Keeps Up (on_cached m)
  on_cached-Keeps h = record {
    after = λ s p. (h.after (record { cache = s.manager.cache; world = world s }) p.0, p.1, p.2);
  }

  pub outside-Closed :
      (out : Outside os)
      → Calm os nf out.host
      → OutsideQuiet os nf out
      → OutsideKeeps out (Closed os nf (policy lans))
  outside-Closed out calm quiet = record {
    dials = λ timeout hosts. safe (λ t. (quiet t).dials timeout hosts);
    now = safe (λ t. (quiet t).now);
    dial_all = λ ips. safe (λ t. (quiet t).dial_all ips);
    sleep_second = safe (λ t. (quiet t).sleep_second);
    read_file = λ file. safe (λ t. (quiet t).read_file file);
    write_file = λ file content. safe (λ t. (quiet t).write_file file content);
    stat = λ file. safe (λ t. (quiet t).stat file);
    remove = λ file. safe (λ t. (quiet t).remove file);
    read_token = λ file. safe (λ t. (quiet t).read_token file);
    ask = λ urls. safe (λ t. (quiet t).ask urls);
    listen = safe (λ t. (quiet t).listen);
    fetch_ip = λ targets. safe (λ t. (quiet t).fetch_ip targets);
    sleep = λ seconds. safe (λ t. (quiet t).sleep seconds);
  }
    where
      safe : {A : Type 0} {m : M os.World A} → Quiet os nf m → Keeps (Closed os nf (policy lans)) m
      safe q = Quiet-Safe os nf out.host calm lans q
