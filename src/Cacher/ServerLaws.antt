-- ===== src/Cacher/ServerLaws.antt =====
-- `MergeServers` of internal/cacher/cacher.go against a direct description of it.
use mathlib.Core.List.{append-nil, append_assoc}
use pia_tun.Base.{
  ℕ, zero, suc, ◌+◌, String, List, [], ◌∷◌, ◌++◌, map, Bool, true, false, ◌||◌, Option, none, some,
  ◌≡◌, refl, sym, ap, ◌∙◌, arith, str_eq, str_eq_iff, length, length-append, set, if◌then◌else◌,
}
use pia_tun.Base.Unseen.{has_text, Distinct}
use pia_tun.Pia.Types.{Server}
use pia_tun.Cacher.Merge.{Index, lookup_cn, index_from, merge_at, merge_loop, merge_servers}

abbrev pub cn_of : Server → String
cn_of s = s.cn

abbrev is_some {ℓ} : {A : Type ℓ} → Option A → Bool
is_some none = false
is_some (some a) = true

-- The server takes the place of the last one of its common name, or else the last place.
abbrev pub last_index : String → List Server → Option ℕ
last_index k [] = none
last_index k (s ∷ ss) = elim (last_index k ss) [
  | some i ↦ some (suc i)
  | none ↦ if str_eq s.cn k then some 0 else none
]

abbrev pub upsert_at : Option ℕ → Server → List Server → List Server
upsert_at (some i) srv ss = set ss i srv
upsert_at none srv ss = ss ++ (srv ∷ [])

abbrev pub upsert : List Server → Server → List Server
upsert ss srv = upsert_at (last_index srv.cn ss) srv ss

abbrev pub upsert_all : List Server → List Server → List Server
upsert_all ss [] = ss
upsert_all ss (srv ∷ news) = upsert_all (upsert ss srv) news

-- The map is right about the list.
abbrev Indexes : Index → List Server → Type 0
Indexes m ss = (k : String) → lookup_cn k m ≡ last_index k ss

last_index-append :
    (k : String) (ss : List Server) (srv : Server)
    → last_index k (ss ++ (srv ∷ []))
      ≡ (if str_eq srv.cn k then some (length ss) else last_index k ss)
last_index-append k [] srv = refl
last_index-append k (s ∷ ss) srv = ground (arith, last_index-append k ss srv)

last_index-set :
    (k : String) (ss : List Server) (i : ℕ) (srv : Server)
    → last_index srv.cn ss ≡ some i
    → last_index k (set ss i srv) ≡ last_index k ss
last_index-set k [] i srv h = refl
last_index-set k (s ∷ ss) zero srv h = ground (arith, str_eq_iff s.cn srv.cn)
last_index-set k (s ∷ ss) (suc i) srv h = ground (arith, last_index-set k ss i srv)

cons-Indexes :
    (done : List Server) (s : Server) (m : Index)
    → Indexes m done
    → Indexes ((s.cn, length done) ∷ m) (done ++ (s ∷ []))
cons-Indexes done s m h k = ground (arith, h k, last_index-append k done s)

-- The first loop makes a right map.
index_from-Indexes :
    (done : List Server) (n : ℕ) (ss : List Server) (m : Index)
    → n ≡ length done
    → Indexes m done
    → Indexes (index_from n m ss) (done ++ ss)
index_from-Indexes done n [] m e h k = rw (append-nil done) (h k)
index_from-Indexes done n (s ∷ ss) m e h k =
    let ih =
      index_from-Indexes (done ++ (s ∷ [])) (n + 1) ss ((s.cn, n) ∷ m)
        (omega (arith, e, length-append done (s ∷ []))) (rw e (cons-Indexes done s m h)) k in
    ih ∙ ap (last_index k) (append_assoc done (s ∷ []) ss)

-- One round of the second loop is an `upsert`, and keeps the map right.
merge_at-Indexes :
    (m : Index) (ss : List Server) (srv : Server) (o : Option ℕ)
    → last_index srv.cn ss ≡ o
    → Indexes m ss
    → let r = merge_at o srv (m, ss) in (r.1 ≡ upsert_at o srv ss) × Indexes r.0 r.1
merge_at-Indexes m ss srv none e h = (refl, cons-Indexes ss srv m h)
merge_at-Indexes m ss srv (some i) e h = (refl, λ k. h k ∙ sym (last_index-set k ss i srv e))

merge_loop-upsert_all :
    (m : Index) (ss news : List Server) → Indexes m ss → merge_loop m ss news ≡ upsert_all ss news
unfolding merge_loop
merge_loop-upsert_all m ss [] h = refl
merge_loop-upsert_all m ss (srv ∷ news) h =
    let r : Index × List Server = merge_at (last_index srv.cn ss) srv (m, ss) in
    let (p, q) = merge_at-Indexes m ss srv (last_index srv.cn ss) refl h in
    rw (h srv.cn) (merge_loop-upsert_all r.0 r.1 news q ∙ ap (λ l. upsert_all l news) p)

-- `MergeServers` puts each new server in the place of the last known one of its common name, or at
-- the end if there is none, in their order.
pub merge_servers-upsert_all : (ss news : List Server) → merge_servers ss news ≡ upsert_all ss news
unfolding merge_servers
merge_servers-upsert_all ss news =
    merge_loop-upsert_all (index_from 0 [] ss) ss news
      (index_from-Indexes [] 0 ss [] refl (λ k. refl))

has_text-last_index :
    (k : String) (ss : List Server) → has_text (map cn_of ss) k ≡ is_some (last_index k ss)
has_text-last_index k [] = refl
has_text-last_index k (s ∷ ss) = ground (arith, has_text-last_index k ss)

has_text-set :
    (k : String) (ss : List Server) (i : ℕ) (srv : Server)
    → last_index srv.cn ss ≡ some i
    → has_text (map cn_of (set ss i srv)) k ≡ has_text (map cn_of ss) k
has_text-set k ss i srv e = ground (
  arith,
  has_text-last_index k (set ss i srv),
  has_text-last_index k ss,
  last_index-set k ss i srv,
)

set-Distinct :
    (ss : List Server) (i : ℕ) (srv : Server)
    → last_index srv.cn ss ≡ some i
    → Distinct cn_of ss
    → Distinct cn_of (set ss i srv)
set-Distinct [] i srv e h = tt
set-Distinct (s ∷ ss) zero srv e h = ground (arith, str_eq_iff s.cn srv.cn)
set-Distinct (s ∷ ss) (suc i) srv e h =
    ground (arith, has_text-set s.cn ss i srv, set-Distinct ss i srv)

has_text-map-append :
    (k : String) (ss : List Server) (srv : Server)
    → has_text (map cn_of (ss ++ (srv ∷ []))) k ≡ (has_text (map cn_of ss) k || str_eq srv.cn k)
has_text-map-append k [] srv = ground arith
has_text-map-append k (s ∷ ss) srv = ground (arith, has_text-map-append k ss srv)

append-Distinct :
    (ss : List Server) (srv : Server)
    → has_text (map cn_of ss) srv.cn ≡ false
    → Distinct cn_of ss
    → Distinct cn_of (ss ++ (srv ∷ []))
append-Distinct [] srv e h = (refl, tt)
append-Distinct (s ∷ ss) srv e h = ground (
  arith,
  has_text-map-append s.cn ss srv,
  str_eq_iff s.cn srv.cn,
  str_eq_iff srv.cn s.cn,
  append-Distinct ss srv,
)

upsert-Distinct :
    (ss : List Server) (srv : Server) (o : Option ℕ)
    → last_index srv.cn ss ≡ o
    → Distinct cn_of ss
    → Distinct cn_of (upsert_at o srv ss)
upsert-Distinct ss srv none e h =
    append-Distinct ss srv (has_text-last_index srv.cn ss ∙ ap is_some e) h
upsert-Distinct ss srv (some i) e h = set-Distinct ss i srv e h

upsert_all-Distinct :
    (ss news : List Server) → Distinct cn_of ss → Distinct cn_of (upsert_all ss news)
upsert_all-Distinct ss [] h = h
upsert_all-Distinct ss (srv ∷ news) h =
    upsert_all-Distinct (upsert ss srv) news (upsert-Distinct ss srv _ refl h)

-- A cache with one server for each common name keeps that through every merge.
pub merge_servers-Distinct :
    (ss news : List Server) → Distinct cn_of ss → Distinct cn_of (merge_servers ss news)
merge_servers-Distinct ss news h =
    rw (merge_servers-upsert_all ss news) (upsert_all-Distinct ss news h)
