-- ===== src/Cacher/Cache.antt =====
-- The cache of internal/cacher/cacher.go and its refresh. The mutex that guards the token is left
-- out: each method is one step.
use pia_tun.Base.{
  ℕ, zero, suc, ◌-◌, ◌*◌, ◌/◌, ltb, String, List, [], ◌++◌, Bool, ◌&&◌, not, Option, none, some,
  str_eq, M, Result, ok, err, Error, ◌>>=◌, ◌>>◌, pure, fail, ignore, attempt, total,
}
use pia_tun.Base.Text.{chars, of_chars}
use pia_tun.Pia.Types.{Server}
use pia_tun.Pia.Client.{generate_token, fetch_server_list}
use pia_tun.Host.{Host}
use pia_tun.Cacher.Merge.{merge_ips, merge_servers, max_cached_ips}

-- Times are nanoseconds. A slice that is nil and an empty one are both the empty list: no test
-- of the program tells them apart here, since the merges leave an empty slice nil.
pub record Cache : Type 0 where
  pub token : String
  pub token_time : ℕ
  pub auth_ips : List String
  pub server_list_ips : List String
  pub servers : List Server

-- The cache beside the state of the system.
pub record Cached (W : Type 0) : Type 0 where
  pub cache : Cache
  pub world : W

abbrev pub nanoseconds : ℕ
nanoseconds = 1000000000

abbrev pub max_token_age : ℕ
max_token_age = 23 * 3600 * nanoseconds

abbrev pub token_file : String
token_file = "/run/pia-tun/token"

abbrev pub auth_hostname : String
auth_hostname = "www.privateinternetaccess.com"

abbrev pub serverlist_hostname : String
serverlist_hostname = "serverlist.piaservers.net"

abbrev pub join : String → String → String
join a b = of_chars (chars a ++ chars b)

module _ {W : Type 0} where
  -- A call of the system.
  abbrev pub on_host : {A : Type 0} → M W A → M (Cached W) A
  on_host m c = let (r, w) = m c.world in (r, record c { world = w })

  abbrev pub get_cache : M (Cached W) Cache
  get_cache c = (ok c.cache, c)

  abbrev pub put_token : String → ℕ → M (Cached W) (Unit {0})
  put_token token time c =
      (ok tt, record c { cache = record c.cache { token = token; token_time = time } })

  unfoldable pub merge_auth_ips : List String → M (Cached W) (Unit {0})
  merge_auth_ips ips c =
      let k = c.cache in
      (ok tt, record c { cache = record k { auth_ips = merge_ips k.auth_ips ips max_cached_ips } })

  unfoldable pub merge_server_list_ips : List String → M (Cached W) (Unit {0})
  merge_server_list_ips ips c =
      let k = c.cache in
      let merged = merge_ips k.server_list_ips ips max_cached_ips in
      (ok tt, record c { cache = record k { server_list_ips = merged } })

  unfoldable pub cache_servers : List Server → M (Cached W) (Unit {0})
  cache_servers new c =
      let k = c.cache in
      (ok tt, record c { cache = record k { servers = merge_servers k.servers new } })

  unfoldable pub clear_server_list_ips : M (Cached W) (Unit {0})
  clear_server_list_ips c = (ok tt, record c { cache = record c.cache { server_list_ips = [] } })

-- `c.Token != "" && age < maxTokenAge`. An age below 0 is 0 here, and fresh as in the source.
abbrev pub is_fresh : Cache → ℕ → Bool
is_fresh c now = not (str_eq c.token "") && ltb (now - c.token_time) max_token_age

module _ {W : Type 0} (host : Host W) where
  open host use {web, now, write_file, remove_file, ctx_err, look_up_ip4, sleep, itoa}

  unfoldable pub token_fresh : M (Cached W) Bool
  token_fresh = do c ← get_cache; t ← on_host (total now); pure (is_fresh c t)

  abbrev pub token_content : String → ℕ → String
  token_content token t = join token (join "\n" (join (itoa (t / nanoseconds)) "\n"))

  unfoldable pub set_token : String → M (Cached W) (Unit {0})
  set_token token = do
    written ← on_host (total now)
    ignore (on_host (write_file token_file (token_content token written)))
    t ← on_host (total now)
    put_token token t

  unfoldable pub clear_token : M (Cached W) (Unit {0})
  clear_token = do ignore (on_host (remove_file token_file)); put_token "" 0

  -- `lastErr`: the later error, or the one before it.
  abbrev pub last_err : Option Error → Option Error → Option Error
  last_err e none = e
  last_err e (some f) = some f

  abbrev pub refreshed_token : Result String → M (Cached W) (Option Error)
  refreshed_token (err e) = pure (some e)
  refreshed_token (ok token) = do set_token token; pure none

  abbrev pub with_auth_ips : String → String → Result (List String) → M (Cached W) (Option Error)
  with_auth_ips user pass (err e) = pure (some e)
  with_auth_ips user pass (ok ips) = do
    merge_auth_ips ips
    r ← attempt (on_host (generate_token web auth_hostname user pass))
    refreshed_token r

  abbrev pub refreshed_servers : Result (List Server) → M (Cached W) (Option Error)
  refreshed_servers (err e) = pure (some e)
  refreshed_servers (ok servers) = do cache_servers servers; pure none

  abbrev pub with_server_list_ips : Result (List String) → M (Cached W) (Option Error)
  with_server_list_ips (err e) = pure (some e)
  with_server_list_ips (ok ips) = do
    merge_server_list_ips ips
    r ← attempt (on_host (fetch_server_list web serverlist_hostname))
    refreshed_servers r

  abbrev pub finished : Option Error → M (Cached W) (Unit {0})
  finished none = pure tt
  finished (some e) = fail e

  unfoldable pub refresh_all : String → String → M (Cached W) (Unit {0})
  refresh_all user pass = do
    on_host ctx_err
    auth ← attempt (on_host (look_up_ip4 auth_hostname))
    e ← with_auth_ips user pass auth
    on_host ctx_err
    ips ← attempt (on_host (look_up_ip4 serverlist_hostname))
    f ← with_server_list_ips ips
    finished (last_err e f)

  -- What `Run` does at a tick, over the attempts left; `fail` is the shutdown. The last error is
  -- only logged.
  abbrev pub after_attempt :
      ℕ → M (Cached W) (Unit {0}) → Result (Unit {0}) → M (Cached W) (Unit {0})
  after_attempt left again (ok _) = pure tt
  after_attempt zero again (err e) = on_host ctx_err
  after_attempt (suc left) again (err e) = do
    on_host ctx_err
    on_host (sleep (60 * nanoseconds))
    again

  unfoldable pub tick : ℕ → String → String → M (Cached W) (Unit {0})
  tick zero user pass = pure tt
  tick (suc left) user pass = do
    r ← attempt (refresh_all user pass)
    after_attempt left (tick left user pass) r
