-- ===== src/Portforward/PayloadLaws.antt =====
-- The expiry that internal/portforward/client.go cuts before it parses it.
use pia_tun.Base.{◌<◌, [], ◌∷◌, ◌++◌, true, ◌≡◌, ◌≢◌, refl, arith, All, ltb, length}
use pia_tun.Base.Text.{Bytes, codes}
use pia_tun.Portforward.Payload.{before_dot, ends_in_z, without_fraction}

before_dot-append : (s rest : Bytes) → All (λ b. b ≢ b'.') s → before_dot (s ++ (b'.' ∷ rest)) ≡ s
before_dot-append [] rest h = refl
before_dot-append (b ∷ s) rest h = ground (arith, before_dot-append s rest h.1, h.0)

ends_in_z-append : (s : Bytes) → ends_in_z (s ++ codes "Z") ≡ true
ends_in_z-append [] = refl
ends_in_z-append (b ∷ []) = refl
ends_in_z-append (b ∷ c ∷ s) = ends_in_z-append (c ∷ s)

ends_in_z-dot : (s f : Bytes) → ends_in_z (s ++ (b'.' ∷ (f ++ codes "Z"))) ≡ true
ends_in_z-dot [] f = ends_in_z-append (b'.' ∷ f)
ends_in_z-dot (b ∷ []) f = ends_in_z-append (b'.' ∷ f)
ends_in_z-dot (b ∷ c ∷ s) f = ends_in_z-dot (c ∷ s) f

-- A time of more than 20 characters in UTC with a fraction of a second, which RFC 3339 writes behind
-- the first dot, is parsed without the fraction.
without_fraction_lem :
    (s f : Bytes)
    → All (λ b. b ≢ b'.') s
    → 20 < length (s ++ (b'.' ∷ (f ++ codes "Z")))
    → without_fraction (s ++ (b'.' ∷ (f ++ codes "Z"))) ≡ s ++ codes "Z"
unfolding without_fraction
without_fraction_lem s f h l =
    let long : ltb 20 (length (s ++ (b'.' ∷ (f ++ codes "Z")))) ≡ true = ground arith in
    rw long (rw (ends_in_z-dot s f) (rw (before_dot-append s (f ++ codes "Z") h) refl))
