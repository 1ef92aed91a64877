-- ===== src/Proxy/HttpAuth.antt =====
-- Whom the HTTP proxy of internal/proxy/http.go serves.
use pia_tun.Base.{
  ℕ, [], ◌∷◌, ◌++◌, Bool, true, false, ◌==◌, ==_iff, Option, none, some, ◌≡◌, ◌≢◌, refl, subst, ap,
  ◌↔◌, ◌∙◌, arith, drop, All, ◌⊎◌, inl, inr, Bool-cases, if◌then◌else◌,
}
use pia_tun.Base.Text.{Bytes, has_prefix, same_bytes}
use pia_tun.Proxy.Socks5.{Config, is_set}
use pia_tun.Proxy.Authorised.{same_bytes_sound}
use pia_tun.Proxy.Http.{
  Request, Upstream, auth_required, get, basic, onto_user, split_pair, judge_pair, judge_payload,
  check_auth, serve_http,
}

-- The value of the header is the credentials of the configuration, as RFC 7617 has it.
abbrev pub IsBasic : (Bytes → Option Bytes) → Config → Bytes → Type 0
IsBasic decode cfg auth =
    (payload : Bytes) × (auth ≡ basic ++ payload)
    × (decode payload ≡ some (cfg.user ++ (b':' ∷ cfg.pass)))

prefixed : (s p : Bytes) → has_prefix s p ≡ true → (rest : Bytes) × (s ≡ p ++ rest)
prefixed s [] h = (s, refl)
prefixed [] (y ∷ p) h = absurd (apart h)
  where
    apart : false ≡ true → ⊥
    apart q = cc
prefixed (x ∷ s) (y ∷ p) h =
    let same : (x ≡ y) × (has_prefix s p ≡ true) = ground (arith, ==_iff x y) in
    let (rest, q) = prefixed s p same.1 in (rest, rw (same.0, q) refl)

onto_user_sound :
    (b : ℕ) (o : Option (Bytes × Bytes)) (user pass : Bytes)
    → onto_user b o ≡ some (user, pass)
    → (rest : Bytes) × (o ≡ some (rest, pass)) × (user ≡ b ∷ rest)
onto_user_sound b none user pass h = absurd (apart h)
  where
    apart : ◌≡◌ {A = Option (Bytes × Bytes)} none (some (user, pass)) → ⊥
    apart q = cc
onto_user_sound b (some (u, p)) user pass h = (u, cc, cc)

split_pair_cases :
    (x : Bool) (bs user pass : Bytes) (o : Option (Bytes × Bytes))
    → (if x then some ([], bs) else o) ≡ some (user, pass)
    → ((x ≡ true) × (user ≡ []) × (bs ≡ pass)) ⊎ (o ≡ some (user, pass))
split_pair_cases true bs user pass o h = inl (refl, cc, cc)
split_pair_cases false bs user pass o h = inr h

split_pair_sound :
    (bs user pass : Bytes) → split_pair bs ≡ some (user, pass) → bs ≡ user ++ (b':' ∷ pass)
split_pair_sound [] user pass h = absurd (apart h)
  where
    apart : ◌≡◌ {A = Option (Bytes × Bytes)} none (some (user, pass)) → ⊥
    apart q = cc
split_pair_sound (b ∷ bs) user pass h =
    elim (split_pair_cases (b == b':') bs user pass (onto_user b (split_pair bs)) h) [
      | inl e ↦
          let colon : b ≡ b':' = ground (arith, ==_iff b b':', e.0) in rw (e.1, e.2, colon) refl
      | inr o ↦
          let (rest, q, u) = onto_user_sound b (split_pair bs) user pass o in
          rw (u, split_pair_sound bs rest pass q) refl
    ]

split_pair-colon :
    (user pass : Bytes)
    → All (λ b. b ≢ b':') user
    → split_pair (user ++ (b':' ∷ pass)) ≡ some (user, pass)
split_pair-colon [] pass h = refl
split_pair-colon (b ∷ user) pass h = ground (arith, split_pair-colon user pass h.1, h.0)

same_bytes_refl : (xs : Bytes) → same_bytes xs xs ≡ true
same_bytes_refl [] = refl
same_bytes_refl (x ∷ xs) = ground (arith, same_bytes_refl xs)

judge_pair_sound :
    (cfg : Config) (payload : Bytes) (o : Option (Bytes × Bytes))
    → ((user pass : Bytes) → o ≡ some (user, pass) → payload ≡ user ++ (b':' ∷ pass))
    → judge_pair cfg o ≡ true
    → payload ≡ cfg.user ++ (b':' ∷ cfg.pass)
judge_pair_sound cfg payload none h q = absurd (apart q)
  where
    apart : false ≡ true → ⊥
    apart q = cc
judge_pair_sound cfg payload (some (user, pass)) h q =
    let both : (same_bytes user cfg.user ≡ true) × (same_bytes pass cfg.pass ≡ true) =
      ground (arith, q) in
    h user pass refl
    ∙ (ap (λ u. u ++ (b':' ∷ pass)) (same_bytes_sound user cfg.user both.0)
        ∙ ap (λ p. cfg.user ++ (b':' ∷ p)) (same_bytes_sound pass cfg.pass both.1))

judge_payload_sound :
    (cfg : Config) (o : Option Bytes)
    → judge_payload cfg o ≡ true
    → o ≡ some (cfg.user ++ (b':' ∷ cfg.pass))
judge_payload_sound cfg none q = absurd (apart q)
  where
    apart : false ≡ true → ⊥
    apart q = cc
judge_payload_sound cfg (some payload) q =
    ap some (judge_pair_sound cfg payload (split_pair payload) (split_pair_sound payload) q)

check_auth_sound :
    (decode : Bytes → Option Bytes) (cfg : Config) (auth : Bytes)
    → check_auth decode cfg auth ≡ true
    → IsBasic decode cfg auth
unfolding check_auth
check_auth_sound decode cfg auth h =
    let both : (has_prefix auth basic ≡ true) × (judge_payload cfg (decode (drop 6 auth)) ≡ true) =
      ground (arith, h) in
    let (payload, q) = prefixed auth basic both.0 in
    (
      payload,
      q,
      subst (λ a. decode (drop 6 a) ≡ some (cfg.user ++ (b':' ∷ cfg.pass))) q
          (judge_payload_sound cfg _ both.1),
    )

check_auth_complete :
    (decode : Bytes → Option Bytes) (cfg : Config) (auth : Bytes)
    → All (λ b. b ≢ b':') cfg.user
    → IsBasic decode cfg auth
    → check_auth decode cfg auth ≡ true
unfolding check_auth
check_auth_complete decode cfg auth h (payload, q, d) =
    rw
      (
        q,
        d,
        split_pair-colon cfg.user cfg.pass h,
        same_bytes_refl cfg.user,
        same_bytes_refl cfg.pass,
      )
      refl

-- Where the user that is set has no colon, the HTTP proxy accepts a Proxy-Authorization exactly if it is
-- `Basic ` with the user, a colon and the password in Base64, as RFC 7617 has it.
pub check_auth-IsBasic :
    (decode : Bytes → Option Bytes) (cfg : Config) (auth : Bytes)
    → All (λ b. b ≢ b':') cfg.user
    → (check_auth decode cfg auth ≡ true) ↔ IsBasic decode cfg auth
check_auth-IsBasic decode cfg auth h =
    (check_auth_sound decode cfg auth, check_auth_complete decode cfg auth h)

-- Where a user and a password are set, the HTTP proxy answers a request with both in its
-- Proxy-Authorization, or asks for them, with no dial and no request to a server.
pub serve_http-IsBasic :
    {W : Type 0} (upstream : Upstream W) (decode : Bytes → Option Bytes) (cfg : Config)
    (r : Request) (w : W)
    → is_set cfg.user ≡ true
    → is_set cfg.pass ≡ true
    → IsBasic decode cfg (get "Proxy-Authorization" r.header)
      ⊎ (serve_http upstream decode cfg r w ≡ (auth_required, w))
unfolding serve_http
serve_http-IsBasic upstream decode cfg r w u p =
    elim (Bool-cases (check_auth decode cfg (get "Proxy-Authorization" r.header))) [
      | inl held ↦ inl (check_auth_sound decode cfg _ held)
      | inr missing ↦ inr (rw (u, p, missing) refl)
    ]
