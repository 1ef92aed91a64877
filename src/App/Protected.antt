-- ===== src/App/Protected.antt =====
-- `Run` of internal/app as a whole: how it leaves the killswitch.
use pia_tun.Base.{
  List, true, false, ◌≡◌, refl, ◌⊎◌, inl, inr, M, Result, ok, err, Error, Keeps, OnOk, str_eq,
  ◌>>=◌, ◌>>◌, pure, continue, attempt,
}
use pia_tun.Base.Sequences.{then-Keeps, ignore-Keeps}
use pia_tun.Base.Outcomes.{
  OnEither, Leaves, bind-Leaves, pure-Leaves, fail-Leaves, if-Leaves, attempt-Leaves, Keeps-Leaves,
  to-Leaves, err-Leaves,
}
use pia_tun.Firewall.Os.{Os, Netfilter}
use pia_tun.Firewall.Backend.{new as new_backend}
use pia_tun.Firewall.Killswitch.{set_active, build_killswitch, setup}
use pia_tun.Firewall.LocalNetworks.{Lans}
use pia_tun.Firewall.Closed.{IsClosed}
use pia_tun.Firewall.KeepsClosed.{Closed}
use pia_tun.Firewall.Policy.{policy}
use pia_tun.Firewall.SetupCloses.{setup-IsClosed}
use pia_tun.Cacher.TokenFile.{new}
use pia_tun.Dns.Resolv.{clear, backup}
use pia_tun.Vpn.Steps.{Calm, Bears}
use pia_tun.Vpn.LeavesRules.{bears-Safe}
use pia_tun.Portforward.Keeps.{GatewayQuiet}
use pia_tun.App.Outside.{Config, Outside, Rounds, App, on_fw, on_system, world}
use pia_tun.App.Starting.{setup_dns, retry, save_dns, real_ip, check_dns, set_cache, initialize}
use pia_tun.App.Running.{Turn, lifetime, take_down, cleanup, deferred, run}
use pia_tun.App.Parts.{OutsideKeeps}
use pia_tun.App.Up.{OutsideQuiet, Up, outside-Closed}
use pia_tun.App.StartingKeeps.{
  new_cache-Keeps, setup_dns-Keeps, retry-Keeps, check_dns-Keeps, real_ip-Keeps, down_keeps,
}
use pia_tun.App.Cleaning.{Unmarked, Exited, cleanup-Leaves}
use pia_tun.App.RunningKeeps.{lifetime-Leaves}

-- A killswitch is marked as active, and it is closed.
abbrev pub IsShut : {os : Os} → Netfilter os → App os.World → Type 0
IsShut nf s =
    (lans : Lans) × IsClosed (policy lans) (nf.rules (world s)) × (s.manager.fw.active ≡ true)

-- No killswitch is marked as active, or the one that is marked is closed.
abbrev pub IsProtected : {os : Os} → Netfilter os → App os.World → Type 0
IsProtected nf s = (s.manager.fw.active ≡ false) ⊎ IsShut nf s

module _ (os : Os) (nf : Netfilter os) (out : Outside os) (calm : Calm os nf out.host)
    (calls : OutsideQuiet os nf out) (quiet : GatewayQuiet os nf out.host out.gateway)
    (rounds : Rounds) (cfg : Config) where
  open out use {host, disk}

  -- There is no killswitch that is marked as active, and the program goes on.
  abbrev Off : App os.World → Type 0
  Off s = (s.manager.fw.active ≡ false) × (s.exited_cleanly ≡ false)

  abbrev R : Error → App os.World → Type 0
  R e s = IsProtected nf s

  system-Leaves : {A : Type 0} (m : M os.World A) → Leaves Off (on_system m) (λ _. Off) R
  system-Leaves m = Keeps-Leaves (record { after = λ s p. p }) (λ e s p. inl p.0)

  Up-IsProtected : (lans : Lans) (s : App os.World) → Up os nf lans s → IsProtected nf s
  Up-IsProtected lans s p = inr (lans, p.0, p.1)

  save_dns-Leaves : Leaves Off (save_dns os out rounds cfg) (λ _. Off) R
  save_dns-Leaves =
      if-Leaves (str_eq cfg.dns_mode "system") (pure-Leaves tt (λ _. Off) (λ s p. p))
        (bind-Leaves (system-Leaves (backup disk)) (λ _. system-Leaves (clear disk)))

  setup_left :
      (r : Result Lans × os.World) (s : App os.World)
      → OnOk
          (λ lans fw. (fw.active ≡ true) × IsClosed (policy lans) (nf.rules fw.world))
          (continue
            (λ lans. set_active os true >> pure lans)
            (r.0, record s.manager.fw { world = r.1 }))
      → Off s
      → OnEither
          (λ lans v. Up os nf lans v)
          R
          (on_fw
            (λ fw.
              continue (λ lans. set_active os true >> pure lans) (r.0, record fw { world = r.1 }))
            s)
  setup_left (ok lans, w) s h p = (h.1, refl, p.1)
  setup_left (err e, w) s h p = inl p.0

  setup-Leaves :
      Leaves Off
        (on_fw (setup os out.is_cidr rounds.deletions cfg.killswitch))
        (λ lans. Up os nf lans)
        R
  unfolding setup
  setup-Leaves = record {
    after = λ s p.
        setup_left (build_killswitch os out.is_cidr rounds.deletions cfg.killswitch (world s)) s
          (setup-IsClosed os nf out.is_cidr rounds.deletions cfg.killswitch s.manager.fw) p;
  }

  module _ (lans : Lans) where
    abbrev U : App os.World → Type 0
    U = Up os nf lans

    abbrev bears : Bears os nf host (Closed os nf (policy lans))
    bears = bears-Safe os nf host calm lans

    abbrev keeps : OutsideKeeps out (Closed os nf (policy lans))
    keeps = outside-Closed os nf lans out calm calls

    ready-Keeps : Keeps U (
        retry os out rounds cfg (setup_dns os out rounds cfg)
        >> (check_dns os out rounds cfg
            >> (real_ip os out rounds cfg
                >> (on_system (new host out.tokens) >>= set_cache os out rounds cfg))))
    ready-Keeps =
        then-Keeps U
          (retry-Keeps os nf lans out calm bears keeps rounds cfg _
            (setup_dns-Keeps os nf lans out calm bears keeps rounds cfg))
          (then-Keeps U (check_dns-Keeps os nf lans out calm bears keeps rounds cfg) (
            then-Keeps U (real_ip-Keeps os nf lans out calm bears keeps rounds cfg)
              (new_cache-Keeps os nf lans out calm bears keeps rounds cfg)))

    take_down-Keeps : (s : App os.World) → U s → U (take_down os out rounds cfg s s).1
    take_down-Keeps s p = rw p.2 (p.0, p.1, refl)

    cleanup-Keeps : Keeps U (cleanup os out rounds cfg)
    unfolding cleanup
    cleanup-Keeps =
        then-Keeps U (ignore-Keeps U (down_keeps os nf lans out calm bears keeps rounds cfg))
          (record { after = take_down-Keeps })

  initialize-Leaves :
      Leaves Off (initialize os out rounds cfg) (λ _ s. (lans : Lans) × Up os nf lans s) R
  unfolding initialize
  initialize-Leaves = bind-Leaves save_dns-Leaves (λ _.
      bind-Leaves (system-Leaves (new_backend out.backends cfg.ipt_backend)) (λ _.
        bind-Leaves setup-Leaves (λ lans.
          to-Leaves (λ _ s p. (lans, p))
            (Keeps-Leaves (ready-Keeps lans) (λ e s. Up-IsProtected lans s)))))

  deferred-Leaves :
      (lans : Lans) (r : Result (Unit {0}))
      → Leaves
          (λ s. OnEither (λ _. Exited os out rounds cfg) (λ _. Up os nf lans) (r, s))
          (deferred os out rounds cfg r)
          (λ _. Unmarked os out rounds cfg)
          (λ _. Up os nf lans)
  deferred-Leaves lans (ok u) =
      bind-Leaves (cleanup-Leaves os out rounds cfg (λ _. Up os nf lans))
        (λ _. pure-Leaves u (λ _. Unmarked os out rounds cfg) (λ s p. p))
  deferred-Leaves lans (err e) =
      bind-Leaves (Keeps-Leaves (cleanup-Keeps lans) (λ _ s p. p))
        (λ _. fail-Leaves e (λ _. Unmarked os out rounds cfg) (λ s p. p))

  guarded-Leaves :
      (lans : Lans) (lives : List (List Turn))
      → Leaves
          (Up os nf lans)
          (attempt (lifetime os out rounds cfg lives) >>= deferred os out rounds cfg)
          (λ _. Unmarked os out rounds cfg)
          (λ _. Up os nf lans)
  guarded-Leaves lans lives =
      bind-Leaves
        (attempt-Leaves (λ _. Exited os out rounds cfg) (λ _. Up os nf lans)
          (lifetime-Leaves os nf lans out calm (bears lans) (keeps lans) quiet rounds cfg lives))
        (deferred-Leaves lans)

  -- Where no call of the system outside of internal/firewall touches the rules:
  -- from a killswitch that is closed, marked as active, and a program that has not been told to end: what
  -- `Run` does behind `initialize`, with `cleanup`, over any turns of the services and any number of new
  -- connections, either ends without an error, and no killswitch is marked, or ends with an error, and
  -- the killswitch is still closed and marked as active.
  pub lifetime-IsClosed :
      (lans : Lans) (lives : List (List Turn)) (s : App os.World)
      → IsClosed (policy lans) (nf.rules (world s))
      → s.manager.fw.active ≡ true
      → s.exited_cleanly ≡ false
      → OnEither
          (λ _ v. v.manager.fw.active ≡ false)
          (λ _ v. IsClosed (policy lans) (nf.rules (world v)) × (v.manager.fw.active ≡ true))
          ((attempt (lifetime os out rounds cfg lives) >>= deferred os out rounds cfg) s)
  lifetime-IsClosed lans lives s h a x =
      (err-Leaves (λ e v p. (p.0, p.1)) (guarded-Leaves lans lives)).after s (h, a, x)

  abbrev live : List (List Turn) → M (App os.World) (Unit {0})
  live lives = attempt (lifetime os out rounds cfg lives) >>= deferred os out rounds cfg

  abbrev Started : App os.World → App os.World → Type 0
  Started s v = initialize os out rounds cfg s ≡ (ok tt, v)

  -- What `Run` leaves when it fails: what an `initialize` that failed has left, or, behind one that
  -- succeeded, a killswitch that is marked as active and closed.
  abbrev pub IsShutAfter : App os.World → Error → App os.World → Type 0
  IsShutAfter s e v =
      ((initialize os out rounds cfg s ≡ (err e, v)) × IsProtected nf v)
      ⊎ (((u : App os.World) × Started s u) × IsShut nf v)

  shut :
      (s v : App os.World) (lans : Lans) (lives : List (List Turn))
      → Started s v
      → Leaves (Up os nf lans) (live lives) (λ _. Unmarked os out rounds cfg) (IsShutAfter s)
  shut s v lans lives q =
      err-Leaves (λ e x p. inr ((v, q), (lans, p.0, p.1))) (guarded-Leaves lans lives)

  run_left :
      (lives : List (List Turn)) (s : App os.World) (r : Result (Unit {0}) × App os.World)
      → initialize os out rounds cfg s ≡ r
      → OnEither (λ _ v. (lans : Lans) × Up os nf lans v) R r
      → OnEither (λ _ v. v.manager.fw.active ≡ false) (IsShutAfter s) (continue (λ _. live lives) r)
  run_left lives s (ok u, v) q (lans, up) = (shut s v lans lives q).after v up
  run_left lives s (err e, v) q p = inl (q, p)

  -- Where no call of the system outside of internal/firewall touches the rules:
  -- from a state with no killswitch, `Run` either ends without an error, and no killswitch is marked as
  -- active, or ends with an error. Then it is `initialize` that failed, and no killswitch is marked as
  -- active or the one that is marked is closed; or `initialize` succeeded, and a killswitch is marked as
  -- active and closed: an error behind `initialize` never takes it down.
  pub run-IsProtected :
      (lives : List (List Turn)) (s : App os.World)
      → s.manager.fw.active ≡ false
      → s.exited_cleanly ≡ false
      → OnEither
          (λ _ v. v.manager.fw.active ≡ false)
          (IsShutAfter s)
          (run os out rounds cfg lives s)
  unfolding run
  run-IsProtected lives s a x =
      run_left lives s (initialize os out rounds cfg s) refl (initialize-Leaves.after s (a, x))
