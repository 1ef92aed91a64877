-- ===== src/Firewall/BackendLaws.antt =====
-- Which backend `New` of internal/firewall/firewall.go chooses.
use pia_tun.Base.{
  ℕ, String, List, [], ◌∷◌, Bool, true, false, not, ◌&&◌, Option, none, some, ◌≡◌, refl, ◌⊎◌, inl,
  inr, str_eq, if◌then◌else◌, M, Result, ok, err, OnOk, Ensures, ◌>>=◌, ◌>>◌, pure, attempt, arith,
  ap, continue, ◌++◌,
}
use pia_tun.Base.Sequences.{bind-Ensures, pure-Ensures, OnOk-map}
use pia_tun.Base.Text.{codes, chars, of_chars, contains, has_prefix, split}
use pia_tun.Firewall.Backend.{
  Backends, has_bit, cap_net_raw, require, judge_caps, caps_in, check_caps, auto_detected,
  detect_backend, new, lower, cap_text,
}

module _ {W : Type 0} (backends : Backends W) where
  -- A backend is nft, or it is legacy and CAP_NET_RAW is there.
  abbrev pub IsAllowed : Bool → String → Type 0
  IsAllowed net_raw found = (found ≡ "nft") ⊎ ((found ≡ "legacy") × (net_raw ≡ true))

  any-Ensures : {A : Type 0} {P : W → Type 0} (m : M W A) → Ensures P m (λ _ _. Unit)
  any-Ensures m = record { after = λ w p. result (m w) }
    where
      result : {A : Type 0} (r : Result A × W) → OnOk (λ _ _. Unit) r
      result (ok a, w) = tt
      result (err e, w) = tt

  require-Ensures : (b : Bool) → Ensures (λ _. Unit) (require backends b) (λ _ _. b ≡ true)
  require-Ensures true = record { after = λ w p. refl }
  require-Ensures false = record { after = λ w p. tt }

  -- What holds of no state holds behind any code.
  stays-Ensures : {A : Type 0} (X : Type 0) (m : M W A) → Ensures (λ _. X) m (λ _ _. X)
  stays-Ensures X m = record { after = λ w x. result (m w) x }
    where
      result : {A : Type 0} (r : Result A × W) → X → OnOk (λ _ _. X) r
      result (ok a, w) x = x
      result (err e, w) x = tt

  abbrev Sufficient : Bool → Bool → W → Type 0
  Sufficient legacy raw w = legacy ≡ true → raw ≡ true

  raw_of : (legacy raw : Bool) → not (legacy && not raw) ≡ true → legacy ≡ true → raw ≡ true
  raw_of legacy raw h l = ground (arith, h, l)

  judge_caps-Ensures :
      (legacy : Bool) (o : Option ℕ)
      → Ensures (λ _. Unit) (judge_caps backends legacy o) (Sufficient legacy)
  judge_caps-Ensures legacy none = record { after = λ w p. tt }
  judge_caps-Ensures legacy (some caps) = bind-Ensures (any-Ensures (require backends _)) (λ _.
      bind-Ensures (require-Ensures (not (legacy && not (has_bit cap_net_raw caps)))) (λ _.
        pure-Ensures (has_bit cap_net_raw caps) (Sufficient legacy)
          (λ w h. raw_of legacy (has_bit cap_net_raw caps) h)))

  caps_in-Ensures :
      (legacy : Bool) (ls : List String)
      → Ensures (λ _. Unit) (caps_in backends legacy ls) (Sufficient legacy)
  caps_in-Ensures legacy [] = record { after = λ w p. tt }
  caps_in-Ensures legacy (l ∷ ls) =
      if-Ensures (has_prefix (codes l) (codes "CapEff:"))
        (judge_caps-Ensures legacy (backends.parse_hex (cap_text backends l)))
        (caps_in-Ensures legacy ls)
    where
      if-Ensures :
          {A : Type 0} {Q : A → W → Type 0} (b : Bool) {m n : M W A}
          → Ensures (λ _. Unit) m Q
          → Ensures (λ _. Unit) n Q
          → Ensures (λ _. Unit) (if b then m else n) Q
      if-Ensures true h k = h
      if-Ensures false h k = k

  check_caps-Ensures :
      (legacy : Bool) → Ensures (λ _. Unit) (check_caps backends legacy) (Sufficient legacy)
  unfolding check_caps
  check_caps-Ensures legacy =
      bind-Ensures (any-Ensures backends.read_status)
        (λ status. caps_in-Ensures legacy (split 10 status))

  preferred-Ensures :
      (mentioned raw : Bool)
      → Ensures {S = W}
          (λ _. Unit)
          (if mentioned && raw then pure "legacy" else pure "nft")
          (λ found _. IsAllowed raw found)
  preferred-Ensures true true = record { after = λ w p. inr (refl, refl) }
  preferred-Ensures true false = record { after = λ w p. inl refl }
  preferred-Ensures false raw = record { after = λ w p. inl refl }

  auto-Ensures :
      (raw : Bool) (r : Result String)
      → Ensures (λ _. Unit) (auto_detected backends raw r) (λ found _. IsAllowed raw found)
  auto-Ensures raw (err e) = bind-Ensures (any-Ensures (backends.runs "legacy")) (λ _.
      bind-Ensures (require-Ensures raw)
        (λ _. pure-Ensures "legacy" (λ found _. IsAllowed raw found) (λ w h. inr (refl, h))))
  auto-Ensures raw (ok output) =
      preferred-Ensures (contains (lower (codes output)) (codes "iptables-legacy")) raw

  detected-Ensures :
      (raw nft legacy : Bool)
      → (legacy ≡ true → raw ≡ true)
      → Ensures
          (λ _. Unit)
          (if nft
            then (backends.runs "nft" >> pure "nft")
            else if legacy
            then (backends.runs "legacy" >> pure "legacy")
            else (attempt backends.combined_output >>= auto_detected backends raw))
          (λ found _. IsAllowed raw found)
  detected-Ensures raw true legacy h =
      bind-Ensures (any-Ensures (backends.runs "nft"))
        (λ _. pure-Ensures "nft" (λ found _. IsAllowed raw found) (λ w p. inl refl))
  detected-Ensures raw false true h =
      bind-Ensures (any-Ensures (backends.runs "legacy"))
        (λ _. pure-Ensures "legacy" (λ found _. IsAllowed raw found) (λ w p. inr (refl, h refl)))
  detected-Ensures raw false false h =
      bind-Ensures (any-Ensures (attempt backends.combined_output)) (auto-Ensures raw)

  chosen-Ensures :
      (backend : String) (raw : Bool)
      → (str_eq backend "legacy" ≡ true → raw ≡ true)
      → Ensures
          (λ _. Unit)
          (do
            found ← detect_backend backends backend raw
            backends.init (of_chars (chars "iptables-" ++ chars found))
            backends.init (of_chars (chars "ip6tables-" ++ chars found))
            pure found)
          (λ found _. IsAllowed raw found)
  unfolding detect_backend
  chosen-Ensures backend raw h =
      bind-Ensures (detected-Ensures raw (str_eq backend "nft") (str_eq backend "legacy") h)
        (λ found. bind-Ensures (stays-Ensures (IsAllowed raw found) (backends.init _)) (λ _.
          bind-Ensures (stays-Ensures (IsAllowed raw found) (backends.init _))
            (λ _. pure-Ensures found (λ x _. IsAllowed raw x) (λ w p. p))))

  known :
      (f : Bool → M W String) (legacy : Bool) (r : Result Bool × W)
      → OnOk (Sufficient legacy) r
      → ((raw : Bool)
          → (legacy ≡ true → raw ≡ true)
          → Ensures (λ _. Unit) (f raw) (λ found _. IsAllowed raw found))
      → OnOk (λ found _. (found ≡ "nft") ⊎ ((found ≡ "legacy") × (r.0 ≡ ok true))) (continue f r)
  known f legacy (err e, w) h k = tt
  known f legacy (ok raw, w) h k =
      OnOk-map (λ found _. IsAllowed raw found)
        (λ found _. (found ≡ "nft") ⊎ ((found ≡ "legacy") × (ok raw ≡ ok true))) (f raw w)
        (λ found v x. with_caps found x) ((k raw h).after w tt)
    where
      with_caps :
          (found : String)
          → IsAllowed raw found
          → (found ≡ "nft") ⊎ ((found ≡ "legacy") × (ok raw ≡ ok true))
      with_caps found (inl x) = inl x
      with_caps found (inr x) = inr (x.0, ap ok x.1)

  -- If `New` succeeds, whatever backend is set, and whatever the system answers, then the backend is nft,
  -- or it is legacy and the capability that legacy takes, CAP_NET_RAW, has been found.
  pub new-IsAllowed :
      (backend : String) (w : W)
      → OnOk
          (λ found _.
            (found ≡ "nft")
            ⊎ ((found ≡ "legacy")
                × ((check_caps backends (str_eq backend "legacy") w).0 ≡ ok true)))
          (new backends backend w)
  unfolding new
  new-IsAllowed backend w =
      known _ (str_eq backend "legacy") (check_caps backends (str_eq backend "legacy") w)
        ((check_caps-Ensures (str_eq backend "legacy")).after w tt) (chosen-Ensures backend)
