-- ===== src/Dns/Proxy.antt =====
-- internal/dns/proxy.go: the framing of messages, the exchange with an upstream, and the dispatch.
use pia_tun.Base.{
  ℕ, zero, suc, ◌+◌, ◌*◌, ◌/◌, ◌%◌, ltb, String, List, [], ◌∷◌, ◌++◌, Bool, Option, none, some,
  length, take, drop, if◌then◌else◌, M, Result, ok, err, err_fatal, ◌>>=◌, ◌>>◌, pure, fail, ignore,
  attempt,
}
use pia_tun.Base.Text.{Bytes, codes, has_prefix, chars, of_chars}
use pia_tun.Firewall.Os.{Os}
use pia_tun.Host.{Host}
use pia_tun.Dns.Resolver.{resolve_all, HostMap}

abbrev pub max_dns_msg : ℕ
max_dns_msg = 16384

-- What `writeMsg` writes: two bytes of length, which are that of `uint16(len(msg))`, and the message.
unfoldable pub framed : Bytes → Bytes
framed msg = (length msg % 65536) / 256 ∷ (length msg % 256) ∷ msg

-- `io.ReadFull` of `n` bytes, from the bytes that the peer sends before it closes: a read that comes
-- short takes them all.
unfoldable pub read_full : ℕ → M Bytes Bytes
read_full n s = if ltb (length s) n then (err [], []) else (ok (take n s), drop n s)

abbrev pub number : Bytes → ℕ
number (hi ∷ lo ∷ rest) = hi * 256 + lo
number _ = 0

unfoldable pub read_msg : M Bytes Bytes
read_msg = do
  hdr ← read_full 2
  if ltb max_dns_msg (number hdr) then fail [] else read_full (number hdr)

-- One round of `handleTCPConn` behind its read: `next` is the rounds that follow, which have the
-- number of writes that succeed and the bytes that are unread.
abbrev pub answered : (ℕ → Bytes → List Bytes) → Bytes → Option Bytes → ℕ → List Bytes
answered next s none writes = []
answered next s (some resp) zero = []
answered next s (some resp) (suc left) = framed resp ∷ next left s

abbrev pub served :
    (Bytes → Option Bytes) → (ℕ → Bytes → List Bytes) → ℕ → Result Bytes × Bytes → List Bytes
served handle next writes (err e, s) = []
served handle next writes (ok query, s) = answered next s (handle query) writes

-- The answers that `handleTCPConn` writes, until a read fails, a query has no answer, or a write fails,
-- which the one behind the first `writes` does. Each round reads two bytes or ends the loop, so that
-- one round for each byte is enough.
unfoldable pub serve_conn : ℕ → (Bytes → Option Bytes) → ℕ → Bytes → List Bytes
serve_conn zero handle writes s = []
serve_conn (suc fuel) handle writes s = served handle (serve_conn fuel handle) writes (read_msg s)

-- `b | 0x80` of a byte.
abbrev pub set_high : ℕ → ℕ
set_high b = if ltb b 128 then b + 128 else b

unfoldable pub servfail : Bytes → Option Bytes
servfail (a ∷ b ∷ c ∷ rest) =
    if ltb (length (a ∷ b ∷ c ∷ rest)) 12
    then none
    else some (a ∷ b ∷ set_high c ∷ 130 ∷ 0 ∷ 0 ∷ 0 ∷ 0 ∷ 0 ∷ 0 ∷ 0 ∷ 0 ∷ [])
servfail _ = none

-- What an upstream asks of crypto/tls, over connections `C`.
pub record Tls (W C : Type 0) : Type 0 where
  pub dial : M W C
  pub set_deadline : C → M W (Unit {0})
  pub write_msg : C → Bytes → M W (Unit {0})
  pub read_msg : C → M W Bytes
  pub close : C → M W (Unit {0})

-- `u.conn` beside the state of the system. `u.mu` keeps other queries out while one is forwarded, but
-- not `CloseUpstreams`: `closings` tells, for each step to come, whether it runs before that step.
pub record Upstream (W C : Type 0) : Type 0 where
  pub conn : Option C
  pub closings : List Bool
  pub world : W

module _ {W C : Type 0} where
  abbrev pub on_net : {A : Type 0} → M W A → M (Upstream W C) A
  on_net m u = let (r, w) = m u.world in (r, record u { world = w })

  abbrev pub load : M (Upstream W C) (Option C)
  load u = (ok u.conn, u)

  abbrev pub store : Option C → M (Upstream W C) (Unit {0})
  store c u = (ok tt, record u { conn = c })

module _ {W C : Type 0} (tls : Tls W C) where
  -- `CloseUpstreams` at this upstream, on what its swap takes out: its swap and its close are one step.
  abbrev pub close_upstream : Option C → M (Upstream W C) (Unit {0})
  close_upstream none = store none
  close_upstream (some c) = do store none; ignore (on_net (tls.close c))

  abbrev pub meanwhile_at : List Bool → M (Upstream W C) (Unit {0})
  meanwhile_at [] u = (ok tt, u)
  meanwhile_at (b ∷ bs) u =
      (if b then close_upstream u.conn else pure tt) (record u { closings = bs })

  abbrev pub meanwhile : M (Upstream W C) (Unit {0})
  meanwhile u = meanwhile_at u.closings u

  abbrev pub step : {A : Type 0} → M (Upstream W C) A → M (Upstream W C) A
  step m = do meanwhile; m

  abbrev pub connection : Option C → M (Upstream W C) C
  connection (some c) = pure c
  connection none = do c ← step (on_net tls.dial); step (store (some c)); pure c

  -- The end of an attempt: a failure of the exchange drops the connection and goes on.
  abbrev pub or_drop : C → M (Upstream W C) Bytes → Result Bytes → M (Upstream W C) Bytes
  or_drop c next (ok resp) = pure resp
  or_drop c next (err e) = do step (store none); ignore (step (on_net (tls.close c))); next

  abbrev pub exchange : C → Bytes → M (Upstream W C) Bytes
  exchange c query = do
    ignore (step (on_net (tls.set_deadline c)))
    step (on_net (tls.write_msg c query))
    step (on_net (tls.read_msg c))

  -- The loop of `forwardDoT`, over the attempts left.
  unfoldable pub forward_attempts : ℕ → Bytes → M (Upstream W C) Bytes
  forward_attempts zero query = fail []
  forward_attempts (suc left) query = do
    held ← step load
    c ← connection held
    r ← attempt (exchange c query)
    or_drop c (forward_attempts left query) r

  unfoldable pub forward_dot : Bytes → M (Upstream W C) Bytes
  forward_dot query = forward_attempts 2 query

-- The dispatch over `n` upstreams; `forward i` is `forwardDoT` of the one at index `i`, and `dials_over`
-- is `dialCtx.Err() != nil`.
module _ {W : Type 0} (forward : ℕ → Bytes → M W Bytes) (dials_over : W → Bool) (n : ℕ) where
  abbrev pub on_answer : Bytes → (W → Option Bytes × W) → Result Bytes × W → Option Bytes × W
  on_answer query next (ok resp, w) = (some resp, w)
  on_answer query next (err e, w) = if dials_over w then (servfail query, w) else next w

  -- The rounds `i`, `i + 1`, ... that are left.
  unfoldable pub dispatch_from : ℕ → ℕ → ℕ → Bytes → W → Option Bytes × W
  dispatch_from zero start i query w = (servfail query, w)
  dispatch_from (suc left) start i query w =
      on_answer query (dispatch_from left start (i + 1) query) (forward ((start + i) % n) query w)

  -- `idx` is the value of the counter before `idx.Add(1)`; below 2^63 the conversion to `int` keeps it.
  unfoldable pub dispatch : ℕ → Bytes → W → Option Bytes × W
  dispatch idx query w = dispatch_from n (idx % n) 0 query w

-- `parseUpstreams`: `is_ip` is `net.ParseIP(host) != nil`.
abbrev pub trim_tls : String → String
trim_tls s = if has_prefix (codes s) (codes "tls://") then of_chars (drop 6 (chars s)) else s

abbrev pub keep_hosts : (String → Bool) → List String → List String
keep_hosts is_ip [] = []
keep_hosts is_ip (s ∷ ss) =
    let rest = keep_hosts is_ip ss in
    let host = trim_tls s in if is_ip host then rest else host ∷ rest

abbrev pub or_fatal : List String → Result (List String)
or_fatal [] = err (err_fatal ∷ [])
or_fatal (h ∷ hs) = ok (h ∷ hs)

unfoldable pub parse_upstreams : (String → Bool) → List String → Result (List String)
parse_upstreams is_ip raw = or_fatal (keep_hosts is_ip raw)

-- The upstreams that `resolveHostnames` appends: an address with its port, and the name that TLS
-- verifies. The map is gone through in the order of its entries, the source's order is any.
abbrev pub dot_addr : String → String
dot_addr ip = of_chars (chars ip ++ chars ":853")

abbrev pub upstreams_at : String → List String → List (String × String)
upstreams_at h [] = []
upstreams_at h (ip ∷ ips) = (dot_addr ip, h) ∷ upstreams_at h ips

abbrev pub upstreams_of : HostMap → List (String × String)
upstreams_of [] = []
upstreams_of ((h, r) ∷ m) =
    let rest = upstreams_of m in if r.nx_domain then rest else upstreams_at h r.ips ++ rest

abbrev pub available : {W : Type 0} → List (String × String) → M W (List (String × String))
available [] = fail (err_fatal ∷ [])
available (u ∷ us) = pure (u ∷ us)

-- From the upstreams that there are, which are none in `Setup`.
unfoldable pub resolve_hostnames :
    (os : Os)
    → Host os.World
    → List String
    → List (String × String)
    → List String
    → M os.World (List (String × String))
resolve_hostnames os host servers upstreams hostnames = do
  results ← resolve_all os host servers hostnames
  available (upstreams ++ upstreams_of results)
