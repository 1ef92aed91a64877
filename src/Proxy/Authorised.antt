-- ===== src/Proxy/Authorised.antt =====
-- Who gets through `handleSOCKS5`.
use mathlib.Core.List.{append_assoc}
use pia_tun.Base.{
  ℕ, zero, suc, ◌≤◌, ltb, [], ◌∷◌, ◌++◌, Bool, true, false, ◌&&◌, ◌==◌, if◌then◌else◌, length, take,
  drop, ◌≡◌, refl, sym, ap, ◌∙◌, arith, M, Result, ok, err, OnOk, Ensures, ◌>>◌, pure, fail, ==_iff,
}
use pia_tun.Base.Text.{Bytes, same_bytes}
use pia_tun.Base.Sequences.{bind-Ensures}
use pia_tun.Proxy.Socks5.{
  Config, Conn, Host, read, write, byte_at, auth_required, greet, judge_auth, check_credentials,
  authenticate, read_request, target, dialled, handle_socks5,
}

pub same_bytes_sound : (xs ys : Bytes) → same_bytes xs ys ≡ true → xs ≡ ys
same_bytes_sound [] [] h = refl
same_bytes_sound [] (y ∷ ys) h = cc
same_bytes_sound (x ∷ xs) [] h = cc
same_bytes_sound (x ∷ xs) (y ∷ ys) h = ground (arith, same_bytes_sound xs ys, ==_iff x y)

take-drop : (n : ℕ) (xs : Bytes) → take n xs ++ drop n xs ≡ xs
take-drop zero xs = refl
take-drop (suc n) [] = refl
take-drop (suc n) (x ∷ xs) = ap (◌∷◌ x) (take-drop n xs)

length-take_le : (n : ℕ) (xs : Bytes) → n ≤ length xs → length (take n xs) ≡ n
length-take_le zero xs h = refl
length-take_le (suc n) [] h = absurd (omega arith)
length-take_le (suc n) (x ∷ xs) h = ap suc (length-take_le n xs (omega arith))

-- The client sent `s`, of which the last bytes read are `ys`.
abbrev Read : Bytes → Bytes → Conn → Type 0
Read s ys c = (pre : Bytes) × (s ≡ pre ++ (ys ++ c.unread))

read-Ensures :
    (s ys : Bytes) (n : ℕ)
    → Ensures (Read s ys) (read n) (λ xs c. Read s (ys ++ xs) c × (length xs ≡ n))
unfolding read
read-Ensures s ys n = record { after = λ c p. result c p (ltb (length c.unread) n) refl }
  where
    joined :
        (c : Conn) (pre : Bytes)
        → s ≡ pre ++ (ys ++ c.unread)
        → s ≡ pre ++ ((ys ++ take n c.unread) ++ drop n c.unread)
    joined c pre e =
        e
        ∙ ap (λ t. pre ++ (ys ++ t)) (sym (take-drop n c.unread))
        ∙ ap (λ t. pre ++ t) (sym (append_assoc ys (take n c.unread) (drop n c.unread)))

    result :
        (c : Conn) (p : Read s ys c) (b : Bool)
        → ltb (length c.unread) n ≡ b
        → OnOk
            (λ xs c. Read s (ys ++ xs) c × (length xs ≡ n))
            (if b
              then (err [], record c { unread = [] })
              else (ok (take n c.unread), record c { unread = drop n c.unread }))
    result c p true h = tt
    result c (pre, e) false h = ((pre, joined c pre e), length-take_le n c.unread (ground arith))

-- What is known of the values is kept beside the state.
with_fact :
    {A F : Type 0} {P : Conn → Type 0} {m : M Conn A} {Q : A → Conn → Type 0}
    → (F → Ensures P m Q)
    → Ensures (λ c. P c × F) m Q
with_fact h = record { after = λ c (p, f). (h f).after c p }

-- The credentials as RFC 1929 sends them, with a version that is not looked at.
abbrev pub credentials : Config → ℕ → Bytes
credentials cfg version = version ∷ length cfg.user ∷ (cfg.user ++ (length cfg.pass ∷ cfg.pass))

-- Somewhere in what the client sent are the credentials.
abbrev pub IsAuthorised : Config → Bytes → Bytes → Type 0
IsAuthorised cfg s rest =
    (pre : Bytes) × (version : ℕ) × (s ≡ pre ++ (credentials cfg version ++ rest))

read_credentials :
    (cfg : Config) (h u l p : Bytes)
    → length h ≡ 2
    → length u ≡ byte_at 1 h
    → length l ≡ 1
    → length p ≡ byte_at 0 l
    → u ≡ cfg.user
    → p ≡ cfg.pass
    → (version : ℕ) × (((h ++ u) ++ l) ++ p ≡ credentials cfg version)
read_credentials cfg (v ∷ n ∷ []) u (k ∷ []) p a b c d e f =
    (v, rw (sym e, sym f, b, d) (ap (λ t. v ∷ n ∷ t) (append_assoc u (k ∷ []) p)))
read_credentials cfg [] u l p a b c d e f = absurd (omega (arith, a))
read_credentials cfg (v ∷ []) u l p a b c d e f = absurd (omega (arith, a))
read_credentials cfg (v ∷ n ∷ m ∷ h) u l p a b c d e f = absurd (omega (arith, a))
read_credentials cfg (v ∷ n ∷ []) u [] p a b c d e f = absurd (omega (arith, c))
read_credentials cfg (v ∷ n ∷ []) u (k ∷ j ∷ l) p a b c d e f = absurd (omega (arith, c))

judge_auth-Ensures :
    (cfg : Config) (s h u l p : Bytes)
    → length h ≡ 2
    → length u ≡ byte_at 1 h
    → length l ≡ 1
    → length p ≡ byte_at 0 l
    → Ensures
        (Read s (((h ++ u) ++ l) ++ p))
        (judge_auth cfg u p)
        (λ _ _. (rest : Bytes) × IsAuthorised cfg s rest)
judge_auth-Ensures cfg s h u l p a b d e = record {
  after = λ c r. result c r (same_bytes u cfg.user) refl (same_bytes p cfg.pass) refl;
}
  where
    result :
        (c : Conn) (r : Read s (((h ++ u) ++ l) ++ p) c) (x : Bool)
        → same_bytes u cfg.user ≡ x
        → (y : Bool) → same_bytes p cfg.pass ≡ y
        → OnOk
            (λ _ _. (rest : Bytes) × IsAuthorised cfg s rest)
            ((if x && y then write (1 ∷ 0 ∷ []) else (write (1 ∷ 1 ∷ []) >> fail [])) c)
    result c r false q y z = tt
    result c r true q false z = tt
    result c (pre, r) true q true z =
        let (version, k) =
          read_credentials cfg h u l p a b d e (same_bytes_sound u cfg.user q)
            (same_bytes_sound p cfg.pass z) in
        (c.unread, (pre, version, r ∙ ap (λ t. pre ++ (t ++ c.unread)) k))

check_credentials-Ensures :
    (cfg : Config) (s : Bytes)
    → Ensures (Read s []) (check_credentials cfg) (λ _ _. (rest : Bytes) × IsAuthorised cfg s rest)
unfolding check_credentials
check_credentials-Ensures cfg s = bind-Ensures (read-Ensures s [] 2) (λ h. with_fact (λ a.
    bind-Ensures (read-Ensures s h (byte_at 1 h)) (λ u. with_fact (λ b.
      bind-Ensures (read-Ensures s (h ++ u) 1) (λ l. with_fact (λ d.
        bind-Ensures (read-Ensures s ((h ++ u) ++ l) (byte_at 0 l))
          (λ p. with_fact (λ e. judge_auth-Ensures cfg s h u l p a b d e))))))))

-- What is read is read, whatever it is taken for.
Read-all : (s ys : Bytes) (c : Conn) → Read s ys c → Read s [] c
Read-all s ys c (pre, e) = (pre ++ ys, e ∙ sym (append_assoc pre ys c.unread))

greet-Ensures : (s : Bytes) → Ensures (Read s []) greet (λ _ c. Read s [] c)
unfolding greet
greet-Ensures s = bind-Ensures (read-Ensures s [] 2) (λ h. bind-Ensures (version_5 h) (λ _.
    bind-Ensures (read-Ensures s h (byte_at 1 h))
      (λ methods. record { after = λ c p. Read-all s (h ++ methods) c p.0 })))
  where
    version_5 :
        (h : Bytes)
        → Ensures
            (λ c. Read s h c × (length h ≡ 2))
            (if byte_at 0 h == 5 then pure tt else fail [])
            (λ _ c. Read s h c)
    version_5 h = record { after = λ c p. either c p (byte_at 0 h == 5) }
      where
        either :
            (c : Conn) (p : Read s h c × (length h ≡ 2)) (b : Bool)
            → OnOk (λ _ c. Read s h c) ((if b then pure tt else fail []) c)
        either c p true = p.0
        either c p false = tt

-- A fact about what the client sent stays true.
fact-OnOk : {A F : Type 0} (r : Result A × Conn) → F → OnOk (λ _ _. F) r
fact-OnOk (ok a, c) f = f
fact-OnOk (err e, c) f = tt

fact-Ensures : {A F : Type 0} (m : M Conn A) → Ensures (λ _. F) m (λ _ _. F)
fact-Ensures m = record { after = λ c f. fact-OnOk (m c) f }

write-Ensures : (s bs : Bytes) → Ensures (Read s []) (write bs) (λ _ c. Read s [] c)
write-Ensures s bs = record { after = λ c p. p }

authenticate-Ensures :
    (cfg : Config) (s : Bytes)
    → auth_required cfg ≡ true
    → Ensures (Read s []) (authenticate cfg) (λ _ _. (rest : Bytes) × IsAuthorised cfg s rest)
unfolding authenticate
authenticate-Ensures cfg s h =
    rw h (bind-Ensures (write-Ensures s (5 ∷ 2 ∷ [])) (λ _. check_credentials-Ensures cfg s))

-- Where a user and a password are set, the proxy dials and tunnels only for a client that sent both:
-- among its bytes are the user and the password, each behind its length, as RFC 1929 has it.
pub socks5-IsAuthorised :
    (dials : Host × ℕ → Bool) (cfg : Config) (c : Conn)
    → auth_required cfg ≡ true
    → OnOk (λ dest _. (rest : Bytes) × IsAuthorised cfg c.unread rest) (handle_socks5 dials cfg c)
unfolding handle_socks5 target
socks5-IsAuthorised dials cfg c h = whole.after c ([], refl)
  where
    whole :
        Ensures
          (Read c.unread [])
          (handle_socks5 dials cfg)
          (λ dest _. (rest : Bytes) × IsAuthorised cfg c.unread rest)
    whole =
        bind-Ensures
          (bind-Ensures (greet-Ensures c.unread) (λ _.
            bind-Ensures (authenticate-Ensures cfg c.unread h) (λ _. fact-Ensures read_request)))
          (λ dest. fact-Ensures (dialled dials dest))
