-- ===== src/Dns/Backups.antt =====
-- The backup of /etc/resolv.conf, internal/dns/resolv.go: the calls that connecting makes, from
-- `Backup` to `Restore`.
use pia_tun.Base.{
  List, [], ◌∷◌, Option, none, some, ◌≡◌, refl, ap, ◌∙◌, M, Result, ok, err, ◌>>◌, pure, continue,
  arith,
}
use pia_tun.Base.Text.{Bytes}
use pia_tun.Dns.Resolv.{
  File, resolv_conf, resolv_bak, Disk, resolv_text, write, clear, backup, restore,
}
use pia_tun.Dns.ResolvLaws.{Contents, put_file}

-- A disk whose calls do what is documented, and none of which fails but on a missing file.
pub record Working {W : Type 0} (disk : Disk W) : Type 0 where
  pub contents : W → Contents
  pub put : File → Option Bytes → W → W
  pub contents_put :
      (f : File) (v : Option Bytes) (w : W) → contents (put f v w) ≡ put_file f v (contents w)
  pub read_some :
      (f : File) (w : W) (b : Bytes) → contents w f ≡ some b → disk.read_file f w ≡ (ok b, w)
  pub write_ok : (f : File) (b : Bytes) (w : W) → disk.write_file f b w ≡ (ok tt, put f (some b) w)
  pub stat_some :
      (f : File) (w : W) (b : Bytes) → contents w f ≡ some b → disk.stat f w ≡ (ok tt, w)
  pub stat_none : (f : File) (w : W) → contents w f ≡ none → disk.stat f w ≡ (err [], w)
  pub remove_ok : (f : File) (w : W) → disk.remove f w ≡ (ok tt, put f none w)

-- What a connection does to the two files, in any order.
pub data Step : Type 0 where
  backs_up clears : Step
  writes : List Bytes → Step

module _ {W : Type 0} (disk : Disk W) where
  abbrev pub step : Step → M W (Unit {0})
  step backs_up = backup disk
  step clears = clear disk
  step (writes servers) = write disk servers

  abbrev pub steps : List Step → M W (Unit {0})
  steps [] = pure tt
  steps (s ∷ ss) = step s >> steps ss

  module _ (working : Working disk) where
    open working use {contents, put}

    -- The run succeeded, and the backup holds the text.
    abbrev Saved : Bytes → Result (Unit {0}) × W → Type 0
    Saved b r = (r.0 ≡ ok tt) × (contents r.1 resolv_bak ≡ some b)

    -- The run succeeded, the file holds the text, and there is no backup.
    abbrev pub IsRestored : Bytes → Result (Unit {0}) × W → Type 0
    IsRestored b r =
        (r.0 ≡ ok tt) × (contents r.1 resolv_conf ≡ some b) × (contents r.1 resolv_bak ≡ none)

    put-at :
        (f g : File) (v : Option Bytes) (w : W)
        → contents (put f v w) g ≡ put_file f v (contents w) g
    put-at f g v w = ap (λ c. c g) (working.contents_put f v w)

    backup-first :
        (w : W) (b : Bytes)
        → contents w resolv_conf ≡ some b
        → contents w resolv_bak ≡ none
        → Saved b (backup disk w)
    unfolding backup
    backup-first w b c n = rw (working.stat_none resolv_bak w n) (
        rw (working.read_some resolv_conf w b c)
          (rw (working.write_ok resolv_bak b w) (refl, put-at resolv_bak resolv_bak (some b) w)))

    conf-Saved :
        (w : W) (b t : Bytes)
        → contents w resolv_bak ≡ some b
        → Saved b (disk.write_file resolv_conf t w)
    conf-Saved w b t k =
        rw (working.write_ok resolv_conf t w) (refl, put-at resolv_conf resolv_bak (some t) w ∙ k)

    step-Saved :
        (s : Step) (w : W) (b : Bytes) → contents w resolv_bak ≡ some b → Saved b (step s w)
    unfolding backup clear write
    step-Saved backs_up w b k = rw (working.stat_some resolv_bak w b k) (refl, k)
    step-Saved clears w b k = conf-Saved w b [] k
    step-Saved (writes servers) w b k = conf-Saved w b (resolv_text servers) k

    then-Saved :
        (P : Result (Unit {0}) × W → Type 0) (b : Bytes) (m : M W (Unit {0}))
        (r : Result (Unit {0}) × W)
        → Saved b r
        → ((w : W) → contents w resolv_bak ≡ some b → P (m w))
        → P (continue (λ _. m) r)
    then-Saved P b m (ok u, w) h k = k w h.1
    then-Saved P b m (err e, w) h k = ground arith

    steps-then :
        (P : Result (Unit {0}) × W → Type 0) (ss : List Step) (b : Bytes) (m : M W (Unit {0}))
        (w : W)
        → contents w resolv_bak ≡ some b
        → ((v : W) → contents v resolv_bak ≡ some b → P (m v))
        → P ((steps ss >> m) w)
    steps-then P ss b m w h k = then-Saved P b m (steps ss w) (steps-Saved ss w h) k
      where
        steps-Saved : (l : List Step) (v : W) → contents v resolv_bak ≡ some b → Saved b (steps l v)
        steps-Saved [] v q = (refl, q)
        steps-Saved (s ∷ l) v q =
            then-Saved (Saved b) b (steps l) (step s v) (step-Saved s v b q) (steps-Saved l)

    restore-IsRestored :
        (b : Bytes) (w : W) → contents w resolv_bak ≡ some b → IsRestored b (restore disk w)
    unfolding restore
    restore-IsRestored b w k = rw (working.read_some resolv_bak w b k) (
        rw (working.write_ok resolv_conf b w) (
          rw (working.remove_ok resolv_bak (put resolv_conf (some b) w)) (
            refl,
            put-at resolv_bak resolv_conf none (put resolv_conf (some b) w)
                ∙ put-at resolv_conf resolv_conf (some b) w,
            put-at resolv_bak resolv_bak none (put resolv_conf (some b) w),
          )))

    -- On a disk that works, with a resolv.conf and no backup of it, Backup, then Backup, Clear and Write
    -- any number of times in any order, then Restore succeed, and leave the resolv.conf of the start and
    -- no backup.
    pub restore-backup :
        (ss : List Step) (w : W) (b : Bytes)
        → contents w resolv_conf ≡ some b
        → contents w resolv_bak ≡ none
        → IsRestored b ((backup disk >> (steps ss >> restore disk)) w)
    restore-backup ss w b c n =
        then-Saved (IsRestored b) b (steps ss >> restore disk) (backup disk w)
          (backup-first w b c n)
          (λ v k. steps-then (IsRestored b) ss b (restore disk) v k (restore-IsRestored b))
