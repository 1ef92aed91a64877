-- ===== src/Vpn/Servers.antt =====
-- internal/vpn/servers.go: which servers are candidates, and the race between them.
use pia_tun.Base.{
  ℕ, ltb, leb, String, List, [], ◌∷◌, ◌++◌, Bool, true, false, ◌&&◌, not, Option, none, some,
  length, get_elem?, if◌then◌else◌,
}
use pia_tun.Base.Text.{chars, split_chars, non_empty, trimmed, texts}
use pia_tun.Base.Unseen.{unseen, has_text}
use pia_tun.Pia.Types.{Server}

-- `locationSet`: the words between commas and spaces.
abbrev pub location_set : String → List String
location_set locations =
    texts (non_empty (trimmed (non_empty (split_chars (b',' ∷ b' ' ∷ []) (chars locations)))))

abbrev pub is_wanted : List String → Bool → Server → Bool
is_wanted set pf_required srv =
    if not (has_text set "all") && not (has_text set srv.region)
    then false
    else if pf_required && not srv.pf
    then false
    else true

abbrev pub keep_wanted : List String → Bool → List Server → List Server
keep_wanted set pf_required [] = []
keep_wanted set pf_required (srv ∷ srvs) =
    let rest = keep_wanted set pf_required srvs in
    if is_wanted set pf_required srv then srv ∷ rest else rest

abbrev pub is_empty {ℓ} : {A : Type ℓ} → List A → Bool
is_empty [] = true
is_empty (x ∷ xs) = false

unfoldable pub filter_servers : List Server → String → Bool → List Server
filter_servers servers locations pf_required =
    if is_empty servers
    then []
    else if is_empty (location_set locations)
    then []
    else keep_wanted (location_set locations) pf_required servers

abbrev pub region_of : Server → String
region_of srv = srv.region

unfoldable pub one_per_region : List Server → List Server
one_per_region candidates = unseen region_of [] candidates

-- An answer of a candidate: its index and its latency in nanoseconds, 0 for none.
pub record Answer : Type 0 where
  pub idx : ℕ
  pub latency : ℕ

-- What the `select` of the race takes, in the order in which it does. Each of the last three ends
-- the race, and the longer timer does so at the latest.
pub data Race : Type 0 where
  answers : Answer → Race → Race
  min_timer : Race → Race
  all_answered max_timer cancelled : Race

abbrev pub collect_max : ℕ
collect_max = 25

-- The answers that the race collects behind those that it has.
unfoldable pub collect : List Answer → Race → List Answer
collect got (answers r race) =
    let more = collect (got ++ (r ∷ [])) race in
    let same = collect got race in
    if ltb 0 r.latency
    then (if leb collect_max (length (got ++ (r ∷ []))) then got ++ (r ∷ []) else more)
    else same
collect got (min_timer race) =
    let more = collect got race in if ltb 0 (length got) then got else more
collect got all_answered = got
collect got max_timer = got
collect got cancelled = got

-- The first of the sorted answers: one of least latency, the earliest of those.
abbrev pub best_answer : Answer → List Answer → Answer
best_answer r [] = r
best_answer r (x ∷ xs) = if ltb x.latency r.latency then best_answer x xs else best_answer r xs

abbrev pub with_latency : ℕ → Option Server → Option (Server × ℕ)
with_latency latency none = none
with_latency latency (some srv) = some (srv, latency)

-- `candidates[best.idx]`; the fallback is the first candidate, with latency 0.
abbrev pub chosen : Server → List Server → List Answer → Option (Server × ℕ)
chosen first candidates [] = some (first, 0)
chosen first candidates (r ∷ rs) =
    let best = best_answer r rs in with_latency best.latency (get_elem? candidates best.idx)

-- The region names of `regionList`, in the order of the servers: it sorts and prints them.
abbrev pub listed_regions : Bool → List String → List Server → List String
listed_regions pf_only seen [] = []
listed_regions pf_only seen (srv ∷ srvs) =
    let rest = listed_regions pf_only seen srvs in
    let more = srv.region ∷ listed_regions pf_only (srv.region ∷ seen) srvs in
    if pf_only && not srv.pf then rest else if has_text seen srv.region then rest else more
