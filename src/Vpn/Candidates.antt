-- ===== src/Vpn/Candidates.antt =====
-- Which servers internal/vpn/servers.go and `selectServer` choose from.
use pia_tun.Base.{
  ℕ, suc, String, List, [], ◌∷◌, map, Bool, true, false, Option, none, some, ◌≡◌, ◌⊎◌, refl, subst,
  arith, str_eq, get_elem?, if◌then◌else◌, All, Result, ok, err, OnOk, ◌>>=◌, continue, total,
}
use pia_tun.Base.Unseen.{unseen, has_text, has_text-unseen, Distinct, unseen-Distinct}
use pia_tun.Firewall.Os.{Os}
use pia_tun.Firewall.Exemptions.{guarded, add_exemptions}
use pia_tun.Host.{Host}
use pia_tun.Pia.Types.{Server}
use pia_tun.Cacher.Cache.{Cached, on_host}
use pia_tun.Vpn.Servers.{
  location_set, is_wanted, keep_wanted, is_empty, filter_servers, region_of, one_per_region, Answer,
  Race, collect, best_answer, with_latency, chosen,
}
use pia_tun.Vpn.Login.{Config, returned_value}
use pia_tun.Vpn.Choice.{
  race_exemption, ip_of, returned_choice, race_servers, candidates_of, race_among, select_server,
}
use pia_tun.Vpn.Selection.{IsIn, All-IsIn}

All-if {ℓ κ} :
    {A : Type ℓ} (P : A → Type κ) (b : Bool) (xs ys : List A)
    → All P xs
    → All P ys
    → All P (if b then xs else ys)
All-if P true xs ys h k = h
All-if P false xs ys h k = k

-- What a candidate is: known, in a region of the setting, and with port forwarding if it is required.
abbrev pub IsCandidate : List String → Bool → List Server → Server → Type 0
IsCandidate set pf servers srv =
    ((has_text set "all" ≡ true) ⊎ (has_text set srv.region ≡ true))
    × (pf ≡ true → srv.pf ≡ true)
    × IsIn srv servers

is_wanted_lem :
    (set : List String) (pf : Bool) (srv : Server)
    → is_wanted set pf srv ≡ true
    → ((has_text set "all" ≡ true) ⊎ (has_text set srv.region ≡ true)) × (pf ≡ true → srv.pf ≡ true)
is_wanted_lem set pf srv h = (ground arith, λ g. ground arith)

more_known {ℓ} : {A : Type ℓ} (x y : A) (xs : List A) → IsIn x xs → IsIn x (y ∷ xs)
more_known x y xs (i, e) = (suc i, e)

All-map_known :
    (set : List String) (pf : Bool) (s : Server) (known out : List Server)
    → All (IsCandidate set pf known) out
    → All (IsCandidate set pf (s ∷ known)) out
All-map_known set pf s known [] h = tt
All-map_known set pf s known (o ∷ out) ((w, q, k), h) =
    ((w, q, more_known o s known k), All-map_known set pf s known out h)

kept_if :
    (set : List String) (pf : Bool) (s : Server) (ss out : List Server) (b : Bool)
    → is_wanted set pf s ≡ b
    → All (IsCandidate set pf (s ∷ ss)) out
    → All (IsCandidate set pf (s ∷ ss)) (if b then s ∷ out else out)
kept_if set pf s ss out true e h = let (w, q) = is_wanted_lem set pf s e in ((w, q, (0, refl)), h)
kept_if set pf s ss out false e h = h

keep_wanted-IsCandidate :
    (set : List String) (pf : Bool) (servers : List Server)
    → All (IsCandidate set pf servers) (keep_wanted set pf servers)
keep_wanted-IsCandidate set pf [] = tt
keep_wanted-IsCandidate set pf (s ∷ ss) =
    kept_if set pf s ss (keep_wanted set pf ss) (is_wanted set pf s) refl
      (All-map_known set pf s ss (keep_wanted set pf ss) (keep_wanted-IsCandidate set pf ss))

pub filter_servers-IsCandidate :
    (servers : List Server) (locations : String) (pf : Bool)
    → All (IsCandidate (location_set locations) pf servers) (filter_servers servers locations pf)
unfolding filter_servers
filter_servers-IsCandidate servers locations pf = All-if _ (is_empty servers) [] _ tt (
    All-if _ (is_empty (location_set locations)) [] _ tt
      (keep_wanted-IsCandidate (location_set locations) pf servers))

All-either {κ} :
    (P : Server → Type κ) (b : Bool) (xs ys : List Server)
    → All P xs
    → All P ys
    → All P (elim b [ true ↦ xs | false ↦ ys ])
All-either P true xs ys h k = h
All-either P false xs ys h k = k

All-unseen {κ} :
    (P : Server → Type κ) (seen : List String) (srvs : List Server)
    → All P srvs
    → All P (unseen region_of seen srvs)
All-unseen P seen [] h = tt
All-unseen P seen (s ∷ ss) (p, h) =
    All-either P (has_text seen s.region) (unseen region_of seen ss)
      (s ∷ unseen region_of (s.region ∷ seen) ss) (All-unseen P seen ss h)
      (p, All-unseen P (s.region ∷ seen) ss h)

pub one_per_region-All {κ} :
    (P : Server → Type κ) (srvs : List Server) → All P srvs → All P (one_per_region srvs)
unfolding one_per_region
one_per_region-All P srvs h = All-unseen P [] srvs h

-- `onePerRegion` returns candidates of different regions, and one of every region that they have.
pub one_per_region_lem :
    (srvs : List Server)
    → Distinct region_of (one_per_region srvs)
      × ((region : String)
          → has_text (map region_of (one_per_region srvs)) region
            ≡ has_text (map region_of srvs) region)
unfolding one_per_region
one_per_region_lem srvs = (
  unseen-Distinct region_of [] srvs,
  λ region. ground (arith, has_text-unseen region_of [] region srvs),
)

pub chosen-All {κ} :
    (P : Server → Type κ) (first : Server) (candidates : List Server) (got : List Answer)
    (srv : Server) (latency : ℕ)
    → P first
    → All P candidates
    → chosen first candidates got ≡ some (srv, latency)
    → P srv
chosen-All P first candidates [] srv latency p h e = let q : first ≡ srv = cc in subst P q p
chosen-All P first candidates (r ∷ rs) srv latency p h e =
    from_best (get_elem? candidates (best_answer r rs).idx) refl e
  where
    from_best :
        (o : Option Server)
        → get_elem? candidates (best_answer r rs).idx ≡ o
        → with_latency (best_answer r rs).latency o ≡ some (srv, latency)
        → P srv
    from_best none f g = cc
    from_best (some s) f g =
        let q : s ≡ srv = cc in subst P q (All-IsIn P s candidates h ((best_answer r rs).idx, f))

module _ (os : Os) (host : Host os.World) (atoi : String → ℕ) (dns : List String) where
  abbrev AllOnOk : (Server → Type 0) → Result (List Server) → Type 0
  AllOnOk P (ok servers) = All P servers
  AllOnOk P (err e) = Unit

  AllOnOk-if :
      (P : Server → Type 0) (b : Bool) (x y : Result (List Server))
      → AllOnOk P x
      → AllOnOk P y
      → AllOnOk P (if b then x else y)
  AllOnOk-if P true x y h k = h
  AllOnOk-if P false x y h k = k

  abbrev Wanted : Config → List Server → Server → Type 0
  Wanted cfg servers = IsCandidate (location_set cfg.location) cfg.pf_required servers

  candidates_of-Wanted :
      (cfg : Config) (servers : List Server)
      → AllOnOk (Wanted cfg servers) (candidates_of os host atoi dns cfg servers)
  candidates_of-Wanted cfg servers = by_pf cfg.pf_required refl
    where
      found :
          (pf : Bool)
          → All
              (IsCandidate (location_set cfg.location) pf servers)
              (filter_servers servers cfg.location pf)
      found pf = filter_servers-IsCandidate servers cfg.location pf

      all_found :
          All
            (Wanted cfg servers)
            (one_per_region (filter_servers servers cfg.location cfg.pf_required))
      all_found = one_per_region-All (Wanted cfg servers) _ (found cfg.pf_required)

      by_pf :
          (b : Bool)
          → cfg.pf_required ≡ b
          → AllOnOk (Wanted cfg servers) (candidates_of os host atoi dns cfg servers)
      by_pf true e =
          AllOnOk-if (Wanted cfg servers) (str_eq cfg.location "all") (ok _) _ all_found (
            AllOnOk-if (Wanted cfg servers) (is_empty (filter_servers servers cfg.location false))
              (err _) _ tt
              (rw e (
                AllOnOk-if (IsCandidate (location_set cfg.location) true servers)
                  (is_empty (filter_servers servers cfg.location true)) (err _) (ok _) tt
                  (found true))))
      by_pf false e =
          AllOnOk-if (Wanted cfg servers) (str_eq cfg.location "all") (ok _) _ all_found (
            AllOnOk-if (Wanted cfg servers) (is_empty (filter_servers servers cfg.location false))
              (err _) _ tt (rw e (found false)))

  returned_choice-OnOk :
      (P : Server → Type 0) (o : Option (Server × ℕ)) (c : Cached os.World)
      → ((srv : Server) (latency : ℕ) → o ≡ some (srv, latency) → P srv)
      → OnOk (λ choice _. P choice.0) (returned_choice os host atoi dns o c)
  returned_choice-OnOk P none c h = tt
  returned_choice-OnOk P (some (srv, latency)) c h = h srv latency refl

  race_result :
      (P : Server → Type 0) (srv : Server) (srvs : List Server) (r : Result (Result Race))
      (c : Cached os.World)
      → All P (srv ∷ srvs)
      → OnOk
          (λ choice _. P choice.0)
          (continue
            (λ x. returned_value os host atoi dns x >>= λ race.
              returned_choice os host atoi dns (chosen srv (srv ∷ srvs) (collect [] race)))
            (r, c))
  race_result P srv srvs (ok (ok race)) c h =
      returned_choice-OnOk P (chosen srv (srv ∷ srvs) (collect [] race)) c
        (λ s latency e. chosen-All P srv (srv ∷ srvs) (collect [] race) s latency h.0 h e)
  race_result P srv srvs (ok (err e)) c h = tt
  race_result P srv srvs (err e) c h = tt

  race_servers-OnOk :
      (P : Server → Type 0) (srvs : List Server) (c : Cached os.World)
      → All P srvs
      → OnOk (λ choice _. P choice.0) (race_servers os host atoi dns srvs c)
  unfolding race_servers
  race_servers-OnOk P [] c h = tt
  race_servers-OnOk P (srv ∷ srvs) c h =
      let (r, d) =
        on_host
          (guarded os (add_exemptions os (map race_exemption (srv ∷ srvs)))
            (total (host.race (map ip_of (srv ∷ srvs)))))
          c in
      race_result P srv srvs r d h

  race_among-OnOk :
      (P : Server → Type 0) (r : Result (List Server)) (c : Cached os.World)
      → AllOnOk P r
      → OnOk (λ choice _. P choice.0) (race_among os host atoi dns r c)
  race_among-OnOk P (ok srvs) c h = race_servers-OnOk P srvs c h
  race_among-OnOk P (err e) c h = tt

  -- A server that `selectServer` returns is one of the cached servers, in a region of PIA_LOCATIONS or
  -- in any region where that has "all", and has port forwarding if it is required.
  pub select_server-IsCandidate :
      (cfg : Config) (c : Cached os.World)
      → OnOk
          (λ choice _.
            IsCandidate (location_set cfg.location) cfg.pf_required c.cache.servers choice.0)
          (select_server os host atoi dns cfg c)
  unfolding select_server
  select_server-IsCandidate cfg c =
      race_among-OnOk (Wanted cfg c.cache.servers)
        (candidates_of os host atoi dns cfg c.cache.servers) c
        (candidates_of-Wanted cfg c.cache.servers)
