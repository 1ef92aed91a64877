-- ===== src/Dns/Dispatching.antt =====
-- `dispatch` and `forwardDoT` of internal/dns/proxy.go.
use native.Mathlib.Nat.{mod-lt, mod-eq_of_lt, add-mod_right}
use pia_tun.Base.{
  ℕ, zero, suc, ◌+◌, ◌-◌, ◌%◌, ◌≤◌, ◌<◌, Bool, false, Option, some, ◌≡◌, refl, ap, ◌∙◌, ◌⊎◌, inl,
  inr, arith, M, Result, ok, err,
}
use pia_tun.Base.Text.{Bytes}
use pia_tun.Dns.Proxy.{on_answer, dispatch_from, dispatch}

module _ {W : Type 0} (forward : ℕ → Bytes → M W Bytes) (dials_over : W → Bool) (n : ℕ) where
  -- The upstream answers, whatever was asked before.
  abbrev pub Answers : ℕ → Bytes → Type 0
  Answers u query = (w : W) → (resp : Bytes) × (w' : W) × (forward u query w ≡ (ok resp, w'))

  -- The result is what the upstream at some index gave.
  abbrev pub IsForwarded : Bytes → Option Bytes × W → Type 0
  IsForwarded query r =
      (i : ℕ) × (v : W) × (resp : Bytes) × (w : W) × (i < n)
      × (forward i query v ≡ (ok resp, w))
      × (r ≡ (some resp, w))

  on_answer-IsForwarded :
      (i : ℕ) (query : Bytes) (next : W → Option Bytes × W) (v : W) (r : Result Bytes × W)
      → i < n
      → forward i query v ≡ r
      → ((w : W) → dials_over w ≡ false)
      → ((w : W) → IsForwarded query (next w))
      → IsForwarded query (on_answer forward dials_over n query next r)
  on_answer-IsForwarded i query next v (ok resp, w) l e alive h = (i, v, resp, w, l, e, refl)
  on_answer-IsForwarded i query next v (err x, w) l e alive h = rw (alive w) (h w)

  dispatch_from-IsForwarded :
      (left start i j u : ℕ) (query : Bytes) (w : W)
      → u < n
      → ((w : W) → dials_over w ≡ false)
      → Answers u query
      → i ≤ j
      → j < i + left
      → (start + j) % n ≡ u
      → IsForwarded query (dispatch_from forward dials_over n left start i query w)
  unfolding dispatch_from
  dispatch_from-IsForwarded zero start i j u query w l_u alive h l g e = absurd (omega arith)
  dispatch_from-IsForwarded (suc left) start i j u query w l_u alive h l g e =
      elim (same_or_later) [
        | inl same ↦
            let (resp, w', a) = h w in
            let at : (start + i) % n ≡ u = rw same e in rw (at, a) (u, w, resp, w', l_u, a, refl)
        | inr later ↦
            on_answer-IsForwarded ((start + i) % n) query
              (dispatch_from forward dials_over n left start (i + 1) query) w
              (forward ((start + i) % n) query w) (mod-lt (start + i) (omega (arith, l_u))) refl
              alive
              (λ v.
                dispatch_from-IsForwarded left start (i + 1) j u query v l_u alive h (omega arith)
                  (omega arith) e)
      ]
    where
      same_or_later : (i ≡ j) ⊎ (i < j)
      same_or_later = ground arith

  -- From wherever the round robin starts, the upstreams are all tried: if the dials are not cancelled
  -- and one of them answers the query whatever was asked before, then what the client gets is what
  -- `forwardDoT` of one of them returned.
  pub dispatch_reaches :
      (idx u : ℕ) (query : Bytes) (w : W)
      → u < n
      → ((w : W) → dials_over w ≡ false)
      → Answers u query
      → IsForwarded query (dispatch forward dials_over n idx query w)
  unfolding dispatch
  dispatch_reaches idx u query w l alive h = elim before_or_behind [
    | inl before ↦
        dispatch_from-IsForwarded n (idx % n) 0 (u - idx % n) u query w l alive h (omega arith)
          (omega arith) (ap (λ k. k % n) (sum before) ∙ mod-eq_of_lt l)
    | inr behind ↦
        dispatch_from-IsForwarded n (idx % n) 0 (u + n - idx % n) u query w l alive h (omega arith)
          (omega arith) (ap (λ k. k % n) (turned behind) ∙ add-mod_right u n ∙ mod-eq_of_lt l)
  ]
    where
      start-lt : idx % n < n
      start-lt = mod-lt idx (omega arith)

      before_or_behind : (idx % n ≤ u) ⊎ (u < idx % n)
      before_or_behind = ground arith

      sum : idx % n ≤ u → idx % n + (u - idx % n) ≡ u
      sum p = omega arith

      turned : u < idx % n → idx % n + (u + n - idx % n) ≡ u + n
      turned p = omega (arith, start-lt)
