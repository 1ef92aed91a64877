-- ===== src/Vpn/Steps.antt =====
-- A property of the system that every call keeps, and every exemption with the call that it is
-- made for, is kept by the whole of `vpn.Setup`, on success and on every error.
use pia_tun.Base.{
  ℕ, String, List, [], ◌∷◌, Option, none, some, M, Result, ok, err, Keeps, pure, total, ◌≡◌,
}
use pia_tun.Base.Sequences.{
  bind-Keeps, then-Keeps, ignore-Keeps, attempt-Keeps, pure-Keeps, fail-Keeps,
}
use pia_tun.Firewall.Os.{Os, Netfilter, Rules}
use pia_tun.Firewall.Exemptions.{Exemption, add_exemption, add_exemptions, guarded}
use pia_tun.Firewall.Guards.{Quiet}
use pia_tun.Host.{Host, HostKeeps}
use pia_tun.Pia.Types.{Server}
use pia_tun.Cacher.Cache.{
  Cached, on_host, get_cache, put_token, token_content, token_file, is_fresh, token_fresh,
  set_token, clear_token, merge_auth_ips, merge_server_list_ips, cache_servers,
  clear_server_list_ips,
}
use pia_tun.Dns.Resolver.{
  HostMap, results_of, query, first_address, usable, lookup_host, resolve_by, resolve,
}

-- Every call of the system leaves the rules alone.
abbrev pub Calm : (os : Os) → Netfilter os → Host os.World → Type 0
Calm os nf host = (t : Rules) → HostKeeps host (λ w. nf.rules w ≡ t)

-- What the property has to bear.
pub record Bears (os : Os) (nf : Netfilter os) (host : Host os.World) (P : os.World → Type 0)
    : Type 1 where
  pub calls : HostKeeps host P
  pub exemption :
      {A : Type 0} (ip port proto : String) (m : M os.World A)
      → Quiet os nf m
      → Keeps P (guarded os (add_exemption os ip port proto) m)
  pub exemptions :
      {A : Type 0} (specs : List Exemption) (m : M os.World A)
      → Quiet os nf m
      → Keeps P (guarded os (add_exemptions os specs) m)

module _ (os : Os) (nf : Netfilter os) (host : Host os.World) (calm : Calm os nf host)
    (P : os.World → Type 0) (bears : Bears os nf host P) where
  -- The property of the system, beside the cache.
  abbrev pub Pv : Cached os.World → Type 0
  Pv c = P c.world

  pub on_host-Keeps : {A : Type 0} {m : M os.World A} → Keeps P m → Keeps Pv (on_host m)
  on_host-Keeps h = record { after = λ c p. h.after c.world p }

  pub get_cache-Keeps : Keeps Pv get_cache
  get_cache-Keeps = record { after = λ c p. p }

  put_token-Keeps : (token : String) (time : ℕ) → Keeps Pv (put_token token time)
  put_token-Keeps token time = record { after = λ c p. p }

  pub merge_auth_ips-Keeps : (ips : List String) → Keeps Pv (merge_auth_ips ips)
  unfolding merge_auth_ips
  merge_auth_ips-Keeps ips = record { after = λ c p. p }

  pub merge_server_list_ips-Keeps : (ips : List String) → Keeps Pv (merge_server_list_ips ips)
  unfolding merge_server_list_ips
  merge_server_list_ips-Keeps ips = record { after = λ c p. p }

  pub cache_servers-Keeps : (servers : List Server) → Keeps Pv (cache_servers servers)
  unfolding cache_servers
  cache_servers-Keeps servers = record { after = λ c p. p }

  pub clear_server_list_ips-Keeps : Keeps Pv clear_server_list_ips
  unfolding clear_server_list_ips
  clear_server_list_ips-Keeps = record { after = λ c p. p }

  pub token_fresh-Keeps : Keeps Pv (token_fresh host)
  unfolding token_fresh
  token_fresh-Keeps =
      bind-Keeps Pv get_cache-Keeps
        (λ c. bind-Keeps Pv (on_host-Keeps bears.calls.now) (λ t. pure-Keeps Pv (is_fresh c t)))

  pub set_token-Keeps : (token : String) → Keeps Pv (set_token host token)
  unfolding set_token
  set_token-Keeps token = bind-Keeps Pv (on_host-Keeps bears.calls.now) (λ written.
      then-Keeps Pv
        (ignore-Keeps Pv
          (on_host-Keeps (bears.calls.write_file token_file (token_content host token written))))
        (bind-Keeps Pv (on_host-Keeps bears.calls.now) (put_token-Keeps token)))

  pub clear_token-Keeps : Keeps Pv (clear_token host)
  unfolding clear_token
  clear_token-Keeps =
      then-Keeps Pv (ignore-Keeps Pv (on_host-Keeps (bears.calls.remove_file token_file)))
        (put_token-Keeps "" 0)

  pub query-Keeps : (names : List String) (srv : String) → Keeps P (query os host names srv)
  unfolding query
  query-Keeps names srv =
      bind-Keeps P
        (bears.exemptions _ (total (host.look_up srv names)) (λ t. (calm t).look_up srv names))
        (λ r. pure-Keeps P (results_of r))

  first_address-Keeps :
      (name : String) (next : M os.World (List String)) (r : Result HostMap)
      → Keeps P next
      → Keeps P (first_address os host name next r)
  first_address-Keeps name next (err e) h = h
  first_address-Keeps name next (ok m) h = usable-Keeps (usable (lookup_host name m))
    where
      usable-Keeps :
          (o : Option (List String)) → Keeps P (elim o [ none ↦ next | some ips ↦ pure ips ])
      usable-Keeps none = h
      usable-Keeps (some ips) = pure-Keeps P ips

  resolve_by-Keeps : (name : String) (srvs : List String) → Keeps P (resolve_by os host name srvs)
  unfolding resolve_by
  resolve_by-Keeps name [] = fail-Keeps P []
  resolve_by-Keeps name (srv ∷ srvs) =
      bind-Keeps P (attempt-Keeps P (query-Keeps (name ∷ []) srv)) (λ r.
        first_address-Keeps name (resolve_by os host name srvs) r (resolve_by-Keeps name srvs))

  pub resolve-Keeps : (srvs : List String) (name : String) → Keeps P (resolve os host srvs name)
  unfolding resolve
  resolve-Keeps srvs name = resolve_by-Keeps name srvs
