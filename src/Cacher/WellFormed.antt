-- ===== src/Cacher/WellFormed.antt =====
-- What the cache of internal/cacher/cacher.go always is, through every refresh.
use pia_tun.Base.{
  ℕ, zero, suc, ◌≤◌, ◌*◌, String, List, Option, none, some, length, M, Result, ok, err, Error,
  Keeps, total,
}
use pia_tun.Base.Unseen.{Distinct}
use pia_tun.Base.Sequences.{
  bind-Keeps, then-Keeps, ignore-Keeps, attempt-Keeps, pure-Keeps, fail-Keeps,
}
use pia_tun.Pia.Types.{Server}
use pia_tun.Pia.Client.{generate_token, fetch_server_list}
use pia_tun.Host.{Host}
use pia_tun.Cacher.Merge.{itself, max_cached_ips}
use pia_tun.Cacher.MergeLaws.{merge_ips_bounds}
use pia_tun.Cacher.ServerLaws.{cn_of, merge_servers-Distinct}
use pia_tun.Cacher.Cache.{
  Cache, Cached, nanoseconds, token_file, auth_hostname, serverlist_hostname, on_host, put_token,
  merge_auth_ips, merge_server_list_ips, cache_servers, token_content, set_token, last_err,
  refreshed_token, with_auth_ips, refreshed_servers, with_server_list_ips, finished, refresh_all,
  after_attempt, tick,
}

-- At most five addresses of each kind, all different, and one server for each common name.
pub record IsWellFormed (c : Cache) : Type 0 where
  pub few_auth : length c.auth_ips ≤ max_cached_ips
  pub distinct_auth : Distinct itself c.auth_ips
  pub few_list : length c.server_list_ips ≤ max_cached_ips
  pub distinct_list : Distinct itself c.server_list_ips
  pub distinct_servers : Distinct cn_of c.servers

module _ {W : Type 0} where
  abbrev pub Good : Cached W → Type 0
  Good c = IsWellFormed c.cache

  on_host-Keeps : {A : Type 0} (m : M W A) → Keeps Good (on_host m)
  on_host-Keeps m = record { after = λ c p. p }

  put_token-Keeps : (token : String) (time : ℕ) → Keeps Good (put_token token time)
  put_token-Keeps token time = record {
    after = λ c p. record {
      few_auth = p.few_auth;
      distinct_auth = p.distinct_auth;
      few_list = p.few_list;
      distinct_list = p.distinct_list;
      distinct_servers = p.distinct_servers;
    };
  }

  merge_auth_ips-Keeps : (ips : List String) → Keeps Good (merge_auth_ips ips)
  unfolding merge_auth_ips
  merge_auth_ips-Keeps ips = record {
    after = λ c p.
        let (few, distinct) = merge_ips_bounds c.cache.auth_ips ips max_cached_ips in
        record {
          few_auth = few;
          distinct_auth = distinct;
          few_list = p.few_list;
          distinct_list = p.distinct_list;
          distinct_servers = p.distinct_servers;
        };
  }

  merge_server_list_ips-Keeps : (ips : List String) → Keeps Good (merge_server_list_ips ips)
  unfolding merge_server_list_ips
  merge_server_list_ips-Keeps ips = record {
    after = λ c p.
        let (few, distinct) = merge_ips_bounds c.cache.server_list_ips ips max_cached_ips in
        record {
          few_auth = p.few_auth;
          distinct_auth = p.distinct_auth;
          few_list = few;
          distinct_list = distinct;
          distinct_servers = p.distinct_servers;
        };
  }

  cache_servers-Keeps : (servers : List Server) → Keeps Good (cache_servers servers)
  unfolding cache_servers
  cache_servers-Keeps servers = record {
    after = λ c p. record {
      few_auth = p.few_auth;
      distinct_auth = p.distinct_auth;
      few_list = p.few_list;
      distinct_list = p.distinct_list;
      distinct_servers = merge_servers-Distinct c.cache.servers servers p.distinct_servers;
    };
  }

module _ {W : Type 0} (host : Host W) where
  set_token-Keeps : (token : String) → Keeps Good (set_token host token)
  unfolding set_token
  set_token-Keeps token = bind-Keeps Good (on_host-Keeps (total host.now)) (λ written.
      then-Keeps Good
        (ignore-Keeps Good
          (on_host-Keeps (host.write_file token_file (token_content host token written))))
        (bind-Keeps Good (on_host-Keeps (total host.now)) (put_token-Keeps token)))

  refreshed_token-Keeps : (r : Result String) → Keeps Good (refreshed_token host r)
  refreshed_token-Keeps (err e) = pure-Keeps Good (some e)
  refreshed_token-Keeps (ok token) = then-Keeps Good (set_token-Keeps token) (pure-Keeps Good none)

  with_auth_ips-Keeps :
      (user pass : String) (r : Result (List String)) → Keeps Good (with_auth_ips host user pass r)
  with_auth_ips-Keeps user pass (err e) = pure-Keeps Good (some e)
  with_auth_ips-Keeps user pass (ok ips) = then-Keeps Good (merge_auth_ips-Keeps ips) (
      bind-Keeps Good
        (attempt-Keeps Good (on_host-Keeps (generate_token host.web auth_hostname user pass)))
        refreshed_token-Keeps)

  refreshed_servers-Keeps : (r : Result (List Server)) → Keeps Good (refreshed_servers host r)
  refreshed_servers-Keeps (err e) = pure-Keeps Good (some e)
  refreshed_servers-Keeps (ok servers) =
      then-Keeps Good (cache_servers-Keeps servers) (pure-Keeps Good none)

  with_server_list_ips-Keeps : (r : Result (List String)) → Keeps Good (with_server_list_ips host r)
  with_server_list_ips-Keeps (err e) = pure-Keeps Good (some e)
  with_server_list_ips-Keeps (ok ips) = then-Keeps Good (merge_server_list_ips-Keeps ips) (
      bind-Keeps Good
        (attempt-Keeps Good (on_host-Keeps (fetch_server_list host.web serverlist_hostname)))
        refreshed_servers-Keeps)

  finished-Keeps : (o : Option Error) → Keeps Good (finished host o)
  finished-Keeps none = pure-Keeps Good tt
  finished-Keeps (some e) = fail-Keeps Good e

  refresh_all-Keeps : (user pass : String) → Keeps Good (refresh_all host user pass)
  unfolding refresh_all
  refresh_all-Keeps user pass = then-Keeps Good (on_host-Keeps host.ctx_err) (
      bind-Keeps Good (attempt-Keeps Good (on_host-Keeps (host.look_up_ip4 auth_hostname))) (λ auth.
        bind-Keeps Good (with_auth_ips-Keeps user pass auth) (λ e.
          then-Keeps Good (on_host-Keeps host.ctx_err) (
            bind-Keeps Good
              (attempt-Keeps Good (on_host-Keeps (host.look_up_ip4 serverlist_hostname)))
              (λ ips.
                bind-Keeps Good (with_server_list_ips-Keeps ips)
                  (λ f. finished-Keeps (last_err host e f)))))))

  after_attempt-Keeps :
      (left : ℕ) (again : M (Cached W) (Unit {0})) (r : Result (Unit {0}))
      → Keeps Good again
      → Keeps Good (after_attempt host left again r)
  after_attempt-Keeps left again (ok _) h = pure-Keeps Good tt
  after_attempt-Keeps zero again (err e) h = on_host-Keeps host.ctx_err
  after_attempt-Keeps (suc left) again (err e) h =
      then-Keeps Good (on_host-Keeps host.ctx_err)
        (then-Keeps Good (on_host-Keeps (host.sleep (60 * nanoseconds))) h)

  tick-Keeps : (attempts : ℕ) (user pass : String) → Keeps Good (tick host attempts user pass)
  unfolding tick
  tick-Keeps zero user pass = pure-Keeps Good tt
  tick-Keeps (suc left) user pass =
      bind-Keeps Good (attempt-Keeps Good (refresh_all-Keeps user pass))
        (λ r. after_attempt-Keeps left (tick host left user pass) r (tick-Keeps left user pass))

  -- Every scheduled refresh, with all its attempts, keeps the cache well formed: at most five addresses
  -- of each kind, all different, and one server for each common name.
  pub tick-IsWellFormed :
      (attempts : ℕ) (user pass : String) (c : Cached W)
      → IsWellFormed c.cache
      → IsWellFormed (tick host attempts user pass c).1.cache
  tick-IsWellFormed attempts user pass c h = (tick-Keeps attempts user pass).after c h
