-- ===== src/Proxy/Session.antt =====
-- A session of `handleSOCKS5` with a client that follows RFC 1928 and RFC 1929.
use pia_tun.Base.{
  ℕ, ◌+◌, ◌*◌, [], ◌∷◌, ◌++◌, Bool, true, length, length-append, take-length_append,
  drop-length_append, ◌≡◌, refl, arith, ==_iff, ok,
}
use mathlib.Core.List.{append_assoc}
use pia_tun.Base.Text.{Bytes, same_bytes}
use pia_tun.Proxy.Socks5.{
  Config, Conn, Host, domain, read, auth_required, reply, greet, check_credentials, authenticate,
  read_request, target, handle_socks5,
}
use pia_tun.Proxy.Authorised.{credentials}

abbrev at : Bytes → Bytes → Conn
at unread written = record { unread = unread; written = written }

read-append :
    (n : ℕ) (xs rest w : Bytes) → n ≡ length xs → read n (at (xs ++ rest) w) ≡ (ok xs, at rest w)
unfolding read
read-append n xs rest w e =
    rw e (
      ground (arith, length-append xs rest, take-length_append xs rest, drop-length_append xs rest))

abbrev pub greeting : Bytes → Bytes
greeting methods = 5 ∷ length methods ∷ methods

greet-greeting :
    (methods rest w : Bytes) → greet (at (greeting methods ++ rest) w) ≡ (ok tt, at rest w)
unfolding greet
greet-greeting methods rest w =
    rw
      (
        read-append 2 (5 ∷ length methods ∷ []) (methods ++ rest) w refl,
        read-append (length methods) methods rest w refl,
      )
      refl

same_bytes_refl : (xs : Bytes) → same_bytes xs xs ≡ true
same_bytes_refl [] = refl
same_bytes_refl (x ∷ xs) = ground (arith, same_bytes_refl xs, ==_iff x x)

check_credentials-credentials :
    (cfg : Config) (version : ℕ) (rest w : Bytes)
    → check_credentials cfg (at (credentials cfg version ++ rest) w)
      ≡ (ok tt, at rest (w ++ (1 ∷ 0 ∷ [])))
unfolding check_credentials
check_credentials-credentials cfg version rest w =
    rw
      (
        append_assoc cfg.user (length cfg.pass ∷ cfg.pass) rest,
        read-append 2 (version ∷ length cfg.user ∷ [])
            (cfg.user ++ (length cfg.pass ∷ (cfg.pass ++ rest))) w refl,
        read-append (length cfg.user) cfg.user (length cfg.pass ∷ (cfg.pass ++ rest)) w refl,
        read-append 1 (length cfg.pass ∷ []) (cfg.pass ++ rest) w refl,
        read-append (length cfg.pass) cfg.pass rest w refl,
        same_bytes_refl cfg.user,
        same_bytes_refl cfg.pass,
      )
      refl

-- A request to connect to a name.
abbrev pub request : Bytes → ℕ → ℕ → Bytes
request name hi lo = 5 ∷ 1 ∷ 0 ∷ 3 ∷ length name ∷ (name ++ (hi ∷ lo ∷ []))

read_request-request :
    (name : Bytes) (hi lo : ℕ) (rest w : Bytes)
    → read_request (at (request name hi lo ++ rest) w)
      ≡ (ok (domain name, hi * 256 + lo), at rest w)
unfolding read_request
read_request-request name hi lo rest w =
    rw
      (
        append_assoc name (hi ∷ lo ∷ []) rest,
        read-append 4 (5 ∷ 1 ∷ 0 ∷ 3 ∷ []) (length name ∷ (name ++ (hi ∷ lo ∷ rest))) w refl,
        read-append 1 (length name ∷ []) (name ++ (hi ∷ lo ∷ rest)) w refl,
        read-append (length name) name (hi ∷ lo ∷ rest) w refl,
        read-append 2 (hi ∷ lo ∷ []) rest w refl,
      )
      refl

-- The bytes of the whole session, in front of those to be tunnelled.
abbrev pub session : Config → Bytes → ℕ → Bytes → ℕ → ℕ → Bytes → Bytes
session cfg methods version name hi lo rest =
    greeting methods ++ (credentials cfg version ++ (request name hi lo ++ rest))

-- A client that greets, sends the user and the password that are set, and asks for a name and a port
-- that can be dialled, is connected to exactly those: it gets the three answers of success, and what it
-- sends behind its request is left to be tunnelled.
pub socks5-session :
    (dials : Host × ℕ → Bool) (cfg : Config) (methods : Bytes) (version : ℕ) (name : Bytes)
    (hi lo : ℕ) (rest : Bytes)
    → auth_required cfg ≡ true
    → dials (domain name, hi * 256 + lo) ≡ true
    → handle_socks5 dials cfg
        (record { unread = session cfg methods version name hi lo rest; written = [] })
      ≡ (
        ok (domain name, hi * 256 + lo),
        record { unread = rest; written = (5 ∷ 2 ∷ 1 ∷ 0 ∷ []) ++ reply 0 },
      )
unfolding handle_socks5 target authenticate
socks5-session dials cfg methods version name hi lo rest a d =
    rw
      (
        greet-greeting methods (credentials cfg version ++ (request name hi lo ++ rest)) [],
        a,
        check_credentials-credentials cfg version (request name hi lo ++ rest) (5 ∷ 2 ∷ []),
        read_request-request name hi lo rest (5 ∷ 2 ∷ 1 ∷ 0 ∷ []),
        d,
      )
      refl
