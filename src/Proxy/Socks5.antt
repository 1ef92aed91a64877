-- ===== src/Proxy/Socks5.antt =====
-- `handleSOCKS5` of internal/proxy/socks5.go, over the bytes of a client. The writes to the client do
-- not fail: the source does not look at their errors.
use pia_tun.Base.{
  ℕ, zero, suc, ◌+◌, ◌*◌, ltb, [], ◌∷◌, ◌++◌, Bool, true, false, ◌&&◌, ◌==◌, if◌then◌else◌, length,
  take, drop, M, ok, err, ◌>>=◌, ◌>>◌, pure, fail,
}
use pia_tun.Base.Text.{Bytes, same_bytes}

-- `User` and `Pass` of the configuration.
pub record Config : Type 0 where
  pub user : Bytes
  pub pass : Bytes

-- The bytes that the client sends from now on until it closes, and those that it got.
pub record Conn : Type 0 where
  pub unread : Bytes
  pub written : Bytes

-- An IPv4 address of four bytes, or a name.
pub data Host : Type 0 where
  address domain : Bytes → Host

-- `io.ReadFull` of `n` bytes.
unfoldable pub read : ℕ → M Conn Bytes
read n c =
    if ltb (length c.unread) n
    then (err [], record c { unread = [] })
    else (ok (take n c.unread), record c { unread = drop n c.unread })

abbrev pub write : Bytes → M Conn (Unit {0})
write bs c = (ok tt, record c { written = c.written ++ bs })

-- Byte `i` of an array, which is long enough where this is used.
abbrev pub byte_at : ℕ → Bytes → ℕ
byte_at i [] = 0
byte_at zero (b ∷ bs) = b
byte_at (suc i) (b ∷ bs) = byte_at i bs

abbrev pub is_set : Bytes → Bool
is_set [] = false
is_set (b ∷ bs) = true

abbrev pub auth_required : Config → Bool
auth_required cfg = is_set cfg.user && is_set cfg.pass

-- A reply to a request: its code, and an address that is not used.
abbrev pub reply : ℕ → Bytes
reply code = 5 ∷ code ∷ 0 ∷ 1 ∷ 0 ∷ 0 ∷ 0 ∷ 0 ∷ 0 ∷ 0 ∷ []

-- Step 1, the greeting.
unfoldable pub greet : M Conn (Unit {0})
greet = do
  header ← read 2
  if byte_at 0 header == 5 then pure tt else fail []
  methods ← read (byte_at 1 header)
  pure tt

abbrev pub judge_auth : Config → Bytes → Bytes → M Conn (Unit {0})
judge_auth cfg user pass =
    if same_bytes user cfg.user && same_bytes pass cfg.pass
    then write (1 ∷ 0 ∷ [])
    else (write (1 ∷ 1 ∷ []) >> fail [])

-- Step 3, where it is required.
unfoldable pub check_credentials : Config → M Conn (Unit {0})
check_credentials cfg = do
  auth_header ← read 2
  user ← read (byte_at 1 auth_header)
  p_len ← read 1
  pass ← read (byte_at 0 p_len)
  judge_auth cfg user pass

-- Steps 2 and 3.
unfoldable pub authenticate : Config → M Conn (Unit {0})
authenticate cfg =
    if auth_required cfg then (write (5 ∷ 2 ∷ []) >> check_credentials cfg) else write (5 ∷ 0 ∷ [])

abbrev pub read_domain : M Conn Host
read_domain = do len ← read 1; name ← read (byte_at 0 len); pure (domain name)

abbrev pub read_host : ℕ → M Conn Host
read_host atyp =
    if atyp == 1
    then (read 4 >>= λ ip. pure (address ip))
    else if atyp == 3
    then read_domain
    else (write (reply 8) >> fail [])

-- Step 4: the host and the port of the request.
unfoldable pub read_request : M Conn (Host × ℕ)
read_request = do
  req ← read 4
  if byte_at 1 req == 1 then pure tt else (write (reply 7) >> fail [])
  host ← read_host (byte_at 3 req)
  port ← read 2
  pure (host, byte_at 0 port * 256 + byte_at 1 port)

-- All that comes before the dial, with what is dialled.
unfoldable pub target : Config → M Conn (Host × ℕ)
target cfg = do greet; authenticate cfg; read_request

-- Step 5: `dials` is `net.DialTimeout` succeeding. The result is what is tunnelled to.
abbrev pub dialled : (Host × ℕ → Bool) → Host × ℕ → M Conn (Host × ℕ)
dialled dials dest =
    if dials dest then (write (reply 0) >> pure dest) else (write (reply 5) >> fail [])

unfoldable pub handle_socks5 : (Host × ℕ → Bool) → Config → M Conn (Host × ℕ)
handle_socks5 dials cfg = target cfg >>= dialled dials
