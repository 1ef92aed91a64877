-- ===== src/Vpn/Selection.antt =====
-- Which server the race and the filters of internal/vpn/servers.go give.
use pia_tun.Base.{
  ℕ, zero, suc, ◌≤◌, ◌<◌, ltb, List, [], ◌∷◌, ◌++◌, Bool, true, false, Option, some, ◌≡◌, refl, ap,
  arith, length, length-append, get_elem?, if◌then◌else◌, All, All-append, subst,
}
use pia_tun.Pia.Types.{Server}
use pia_tun.Vpn.Servers.{
  Answer, Race, answers, min_timer, all_answered, max_timer, cancelled, collect_max, collect,
  best_answer, with_latency, chosen,
}

-- All answers that the race takes are about candidates.
abbrev pub InRange : ℕ → Race → Type 0
InRange n (answers r race) = (r.idx < n) × InRange n race
InRange n (min_timer race) = InRange n race
InRange n _ = Unit

-- An answer that was collected is about a candidate, and has a latency.
abbrev pub IsAnswer : ℕ → Answer → Type 0
IsAnswer n r = (r.idx < n) × (0 < r.latency)

collect_lem :
    (n : ℕ) (got : List Answer) (race : Race)
    → InRange n race
    → All (IsAnswer n) got
    → length got < collect_max
    → All (IsAnswer n) (collect got race) × (length (collect got race) ≤ collect_max)
unfolding collect
collect_lem n got (answers r race) h a l = ground (
  arith,
  collect_lem n (got ++ (r ∷ [])) race h.1,
  collect_lem n got race h.1 a l,
  length-append got (r ∷ []),
  All-append (IsAnswer n) got (r ∷ []),
)
collect_lem n got (min_timer race) h a l = ground (arith, collect_lem n got race h a l)
collect_lem n got all_answered h a l = (a, omega arith)
collect_lem n got max_timer h a l = (a, omega arith)
collect_lem n got cancelled h a l = (a, omega arith)

abbrev pub IsIn {ℓ} : {A : Type ℓ} → A → List A → Type ℓ
IsIn {A} x xs = (i : ℕ) × (◌≡◌ {A = Option A} (get_elem? xs i) (some x))

abbrev IsLeast : List Answer → Answer → Type 0
IsLeast rs a = IsIn a rs × All (λ x. a.latency ≤ x.latency) rs

IsIn-behind : (a r x : Answer) (xs : List Answer) → IsIn a (r ∷ xs) → IsIn a (r ∷ x ∷ xs)
IsIn-behind a r x xs (zero, e) = (0, e)
IsIn-behind a r x xs (suc i, e) = (suc (suc i), e)

IsIn-cons : (a r : Answer) (xs : List Answer) → IsIn a xs → IsIn a (r ∷ xs)
IsIn-cons a r xs (i, e) = (suc i, e)

IsLeast-if :
    (b : Bool) (r x : Answer) (xs : List Answer) (p q : Answer)
    → ltb x.latency r.latency ≡ b
    → IsLeast (x ∷ xs) p
    → IsLeast (r ∷ xs) q
    → IsLeast (r ∷ x ∷ xs) (if b then p else q)
IsLeast-if true r x xs p q e (i, (h, hs)) k = (IsIn-cons p r (x ∷ xs) i, (ground arith, (h, hs)))
IsLeast-if false r x xs p q e h (i, (k, ks)) = (IsIn-behind q r x xs i, (k, (ground arith, ks)))

best_answer-IsLeast : (r : Answer) (rs : List Answer) → IsLeast (r ∷ rs) (best_answer r rs)
best_answer-IsLeast r [] = ((0, refl), (omega arith, tt))
best_answer-IsLeast r (x ∷ xs) =
    IsLeast-if _ r x xs _ _ refl (best_answer-IsLeast x xs) (best_answer-IsLeast r xs)

get_elem?-in {ℓ} :
    {A : Type ℓ} (xs : List A) (i : ℕ) → i < length xs → (x : A) × (get_elem? xs i ≡ some x)
get_elem?-in [] i h = absurd (omega arith)
get_elem?-in (x ∷ xs) zero h = (x, refl)
get_elem?-in (x ∷ xs) (suc i) h = get_elem?-in xs i (omega arith)

pub All-IsIn {ℓ κ} :
    {A : Type ℓ} (P : A → Type κ) (x : A) (xs : List A) → All P xs → IsIn x xs → P x
All-IsIn P x [] h (i, e) = cc
All-IsIn P x (y ∷ ys) h (zero, e) = let p : y ≡ x = cc in subst P p h.0
All-IsIn P x (y ∷ ys) h (suc i, e) = All-IsIn P x ys h.1 (i, e)

-- What the race promises of its server: with no answer it is the first candidate, at latency 0, and
-- else it is that of an answer of least latency.
abbrev pub IsBest : Server → List Server → List Answer → Server → ℕ → Type 0
IsBest first candidates [] srv latency = (srv ≡ first) × (latency ≡ 0)
IsBest first candidates (r ∷ rs) srv latency =
    (a : Answer) × IsIn a (r ∷ rs)
    × (get_elem? candidates a.idx ≡ some srv)
    × (a.latency ≡ latency)
    × (0 < latency)
    × All (λ x. latency ≤ x.latency) (r ∷ rs)

chosen-IsBest :
    (first : Server) (candidates : List Server) (got : List Answer)
    → All (IsAnswer (length candidates)) got
    → (srv : Server) × (latency : ℕ) × (chosen first candidates got ≡ some (srv, latency))
      × IsBest first candidates got srv latency
chosen-IsBest first candidates [] h = (first, 0, refl, (refl, refl))
chosen-IsBest first candidates (r ∷ rs) h =
    let (at, least) = best_answer-IsLeast r rs in
    let best : Answer = best_answer r rs in
    let own = All-IsIn (IsAnswer (length candidates)) best (r ∷ rs) h at in
    let (srv, e) = get_elem?-in candidates best.idx own.0 in
    (srv, best.latency, ap (with_latency best.latency) e, (best, at, e, refl, own.1, least))

-- However the answers, the two timers and a cancellation are ordered, the race gives a candidate: the
-- one with an answer of least latency among the answers collected, which are 25 at most, or the first
-- candidate if there are none.
pub race-IsBest :
    (first : Server) (rest : List Server) (race : Race)
    → InRange (length (first ∷ rest)) race
    → (length (collect [] race) ≤ collect_max)
      × (srv : Server) × (latency : ℕ) × (chosen first (first ∷ rest) (collect [] race)
          ≡ some (srv, latency))
      × IsBest first (first ∷ rest) (collect [] race) srv latency
race-IsBest first rest race h =
    let (all, long) = collect_lem (length (first ∷ rest)) [] race h tt (omega arith) in
    let (srv, latency, e, b) = chosen-IsBest first (first ∷ rest) (collect [] race) all in
    (long, srv, latency, e, b)
