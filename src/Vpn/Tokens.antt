-- ===== src/Vpn/Tokens.antt =====
-- The login token of internal/vpn/setup.go and the cache.
use pia_tun.Base.{
  ℕ, String, List, Bool, true, false, ◌≡◌, refl, M, Result, ok, err, Error, OnOk, pure, attempt,
  Ensures, continue, fail, ignore, ignored, total, errors_is, err_token_rejected, if◌then◌else◌,
}
use pia_tun.Base.Outcomes.{OnEither, Leaves, bind-Leaves, ignore-Leaves, pure-Leaves}
use pia_tun.Base.Sequences.{bind-Ensures, pure-Ensures}
use pia_tun.Firewall.Os.{Os, Op, vpn_exemptions, insert, delete, clear_and_delete_chain}
use pia_tun.Firewall.Chains.{jump}
use pia_tun.Firewall.Exemptions.{
  guarded, out_key, exempt_key, add_exemption, create_exempt_chain, remove_exemptions,
}
use pia_tun.Host.{Host}
use pia_tun.Pia.Types.{AddKeyResponse}
use pia_tun.Cacher.Cache.{
  Cached, on_host, put_token, token_fresh, set_token, clear_token, token_file, token_content,
}
use pia_tun.Vpn.Login.{Config, cached_token, new_token, authenticate, get_token}
use pia_tun.Vpn.Setup.{accepted, registration, register}

module _ (os : Os) (host : Host os.World) (atoi : String → ℕ) (dns : List String) where
  anything : {A : Type 0} (r : Result A × Cached os.World) → OnOk (λ _ _. Unit {0}) r
  anything (ok a, c) = tt
  anything (err e, c) = tt

  any-Ensures :
      {A : Type 0} (m : M (Cached os.World) A) → Ensures (λ _. Unit {0}) m (λ _ _. Unit {0})
  any-Ensures m = record { after = λ c p. anything (m c) }

  put_token-Ensures :
      (token : String) (t : ℕ)
      → Ensures (λ _. Unit {0}) (put_token {W = os.World} token t) (λ _ c. c.cache.token ≡ token)
  put_token-Ensures token t = record { after = λ c p. refl }

  set_token-Ensures :
      (token : String)
      → Ensures (λ _. Unit {0}) (set_token host token) (λ _ c. c.cache.token ≡ token)
  unfolding set_token
  set_token-Ensures token = bind-Ensures (any-Ensures (on_host (total host.now))) (λ written.
      bind-Ensures
        (any-Ensures
          (ignore (on_host (host.write_file token_file (token_content host token written)))))
        (λ _. bind-Ensures (any-Ensures (on_host (total host.now))) (put_token-Ensures token)))

  if-Ensures :
      {A : Type 0} {Q : A → Cached os.World → Type 0} (b : Bool) {m n : M (Cached os.World) A}
      → Ensures (λ _. Unit {0}) m Q
      → Ensures (λ _. Unit {0}) n Q
      → Ensures (λ _. Unit {0}) (if b then m else n) Q
  if-Ensures true h k = h
  if-Ensures false h k = k

  -- A token that `getToken` returns, be it a fresh one of the cache or a new one, is the token of the
  -- cache from then on.
  pub get_token-InCache :
      (cfg : Config) (c : Cached os.World)
      → OnOk (λ token d. d.cache.token ≡ token) (get_token os host atoi dns cfg c)
  unfolding get_token
  get_token-InCache cfg c = whole.after c tt
    where
      fresh_one :
          Ensures (λ _. Unit {0}) (cached_token os host atoi dns) (λ token d. d.cache.token ≡ token)
      fresh_one = record { after = λ d p. refl }

      new_one :
          Ensures
            (λ _. Unit {0})
            (new_token os host atoi dns cfg)
            (λ token d. d.cache.token ≡ token)
      new_one = bind-Ensures (any-Ensures (authenticate os host atoi dns cfg)) (λ token.
          bind-Ensures (set_token-Ensures token)
            (λ _. pure-Ensures token (λ t d. d.cache.token ≡ t) (λ d p. p)))

      whole :
          Ensures
            (λ _. Unit {0})
            (get_token os host atoi dns cfg)
            (λ token d. d.cache.token ≡ token)
      whole =
          bind-Ensures (any-Ensures (token_fresh host))
            (λ fresh. if-Ensures fresh fresh_one new_one)

  -- The next `getToken` looks at the clock, and then logs in: it does not take a token of the cache.
  abbrev pub AsksAnew : Config → Cached os.World → Type 0
  AsksAnew cfg d =
      get_token os host atoi dns cfg d
      ≡ new_token os host atoi dns cfg (record d { world = (host.now d.world).1 })

  abbrev pub Settled : Config → Cached os.World → Error → Cached os.World → Type 0
  Settled cfg c e d = if errors_is e err_token_rejected then AsksAnew cfg d else (d.cache ≡ c.cache)

  abbrev Registered : Config → Cached os.World → Result AddKeyResponse × Cached os.World → Type 0
  Registered cfg c r = OnEither (λ _ d. d.cache ≡ c.cache) (Settled cfg c) r

  cleared :
      (cfg : Config) (c : Cached os.World) (e : Error) (r : Result (Unit {0})) (v : os.World)
      → errors_is e err_token_rejected ≡ true
      → Registered cfg c (
          continue
            (λ _. fail {A = AddKeyResponse} e)
            (continue (λ _. put_token "" 0) (ignored (r, record c { world = v }))))
  unfolding get_token token_fresh
  cleared cfg c e (ok u) v q = rw q refl
  cleared cfg c e (err x) v q = rw q refl

  settled :
      (cfg : Config) (c : Cached os.World) (e : Error) (w : os.World) (b : Bool)
      → errors_is e err_token_rejected ≡ b
      → Registered cfg c (
          continue
            (λ _. fail {A = AddKeyResponse} e)
            ((if b then clear_token host else pure tt) (record c { world = w })))
  unfolding clear_token
  settled cfg c e w true q =
      cleared cfg c e (host.remove_file token_file w).0 (host.remove_file token_file w).1 q
  settled cfg c e w false q = rw q refl

  registered :
      (cfg : Config) (c : Cached os.World) (r : Result (Result AddKeyResponse) × os.World)
      → OnEither (λ _ _. Unit {0}) (λ e _. errors_is e err_token_rejected ≡ false) r
      → Registered cfg c (continue (accepted os host atoi dns) (r.0, record c { world = r.1 }))
  registered cfg c (ok (ok resp), w) h = refl
  registered cfg c (ok (err e), w) h = settled cfg c e w (errors_is e err_token_rejected) refl
  registered cfg c (err e, w) h = rw h refl

  abbrev NotRejected : Error → os.World → Type 0
  NotRejected e w = errors_is e err_token_rejected ≡ false

  abbrev Always : os.World → Type 0
  Always w = Unit {0}

  ignored-Always :
      {A : Type 0} (m : M os.World A) → Leaves Always (ignore m) (λ _. Always) NotRejected
  ignored-Always m = ignore-Leaves (record { after = λ w p. tt })

  module _ (h : (op : Op) → Leaves Always (os.iptables op) (λ _. Always) NotRejected) where
    exempts-Leaves :
        (ip : String) → Leaves Always (add_exemption os ip "1337" "tcp") (λ _. Always) NotRejected
    unfolding add_exemption create_exempt_chain
    exempts-Leaves ip =
        bind-Leaves
          (bind-Leaves (h _)
            (λ _. ignored-Always (os.iptables (insert out_key 1 (jump vpn_exemptions)))))
          (λ _. h _)

    removes-Leaves : Leaves Always (remove_exemptions os) (λ _. Always) NotRejected
    unfolding remove_exemptions
    removes-Leaves =
        bind-Leaves (ignored-Always (os.iptables (delete out_key (jump vpn_exemptions))))
          (λ _. ignored-Always (os.iptables (clear_and_delete_chain exempt_key)))

    tried-Leaves :
        {A : Type 0} (m : M os.World A) → Leaves Always (attempt m) (λ _. Always) NotRejected
    tried-Leaves m = record { after = λ w p. tt }

    guarded-Leaves :
        {A : Type 0} (ip : String) (m : M os.World A)
        → Leaves Always (guarded os (add_exemption os ip "1337" "tcp") m) (λ _. Always) NotRejected
    unfolding guarded
    guarded-Leaves ip m = bind-Leaves (exempts-Leaves ip) (λ _.
        bind-Leaves (tried-Leaves m)
          (λ r. bind-Leaves removes-Leaves (λ _. pure-Leaves r (λ _. Always) (λ w p. tt))))

  -- Where no error of iptables is a rejected token: a registration that fails because the server
  -- rejected the token leaves a cache from which the next `getToken` logs in anew, and any other
  -- registration, whether it fails or succeeds, leaves the cache as it is.
  pub register_rejected :
      (cfg : Config) (token ip cn key : String) (c : Cached os.World)
      → ((op : Op) (w : os.World)
          → OnEither
              (λ _ _. Unit {0})
              (λ e _. errors_is e err_token_rejected ≡ false)
              (os.iptables op w))
      → OnEither
          (λ _ d. d.cache ≡ c.cache)
          (Settled cfg c)
          (register os host atoi dns cfg token ip cn key c)
  unfolding register
  register_rejected cfg token ip cn key c h = registered cfg c _ (
      (guarded-Leaves (λ op. record { after = λ w p. h op w }) ip
          (registration os host atoi dns cfg token ip cn key)).after
        c.world tt)
