-- ===== src/Dns/Framing.antt =====
-- `writeMsg`, `readMsg`, `handleTCPConn` and `servfail` of internal/dns/proxy.go.

use pia_tun.Base.{
  ℕ, zero, suc, ◌+◌, ◌*◌, ◌/◌, ◌%◌, ◌≤◌, ◌<◌, ltb, List, [], ◌∷◌, ◌++◌, map, none, some, ◌≡◌, refl,
  ap, ◌∙◌, arith, length, length-append, take-length_append, drop-length_append, if◌then◌else◌, ok,
  err, fail, get_elem?, All,
}
use pia_tun.Base.Text.{Bytes}
use pia_tun.Dns.Proxy.{max_dns_msg, framed, read_full, read_msg, serve_conn, set_high, servfail}

read_full-append :
    (n : ℕ) (xs rest : Bytes) → n ≡ length xs → read_full n (xs ++ rest) ≡ (ok xs, rest)
unfolding read_full
read_full-append n xs rest e =
    rw e (
      ground (arith, length-append xs rest, take-length_append xs rest, drop-length_append xs rest))

number-length : (n : ℕ) → n < 65536 → (n % 65536) / 256 * 256 + n % 256 ≡ n
number-length n h = omega arith

header-read :
    (msg rest : Bytes)
    → length msg < 65536
    → read_msg (framed msg ++ rest)
      ≡ (if ltb max_dns_msg (length msg) then fail [] else read_full (length msg)) (msg ++ rest)
unfolding read_msg framed
header-read msg rest h =
    let hd : Bytes = (length msg % 65536) / 256 ∷ (length msg % 256) ∷ [] in
    rw (read_full-append 2 hd (msg ++ rest) refl, number-length (length msg) h) refl

-- `readMsg` gives back what `writeMsg` wrote, and leaves what follows, for a message of up to 16384
-- bytes; it refuses every longer one that the two bytes of length can tell.
pub read_msg-framed :
    (msg rest : Bytes)
    → (length msg ≤ max_dns_msg → read_msg (framed msg ++ rest) ≡ (ok msg, rest))
      × (max_dns_msg < length msg
          → length msg < 65536
          → read_msg (framed msg ++ rest) ≡ (err [], msg ++ rest))
read_msg-framed msg rest = (
  λ h.
      header-read msg rest (omega arith)
      ∙ ground (arith, read_full-append (length msg) msg rest refl),
  λ h g. header-read msg rest g ∙ ground arith,
)

read_msg_empty : read_msg [] ≡ (err [], [])
unfolding read_msg read_full
read_msg_empty = refl

-- The bytes of a client that sends these queries.
abbrev pub sent : List Bytes → Bytes
sent [] = []
sent (q ∷ qs) = framed q ++ sent qs

abbrev pub IsShort : Bytes → Type 0
IsShort q = length q ≤ max_dns_msg

-- Where every query has at most 16384 bytes and an answer, and the writes succeed, `handleTCPConn` writes
-- the answers to the queries of the client, in their order.
pub serve_conn-All :
    (answer : Bytes → Bytes) (qs : List Bytes) (fuel writes : ℕ)
    → All IsShort qs
    → length qs ≤ writes
    → length qs ≤ fuel
    → serve_conn fuel (λ q. some (answer q)) writes (sent qs) ≡ map (λ q. framed (answer q)) qs
unfolding serve_conn
serve_conn-All answer [] zero writes h w f = refl
serve_conn-All answer [] (suc fuel) writes h w f = rw read_msg_empty refl
serve_conn-All answer (q ∷ qs) zero writes h w f = absurd (omega arith)
serve_conn-All answer (q ∷ qs) (suc fuel) zero h w f = absurd (omega arith)
serve_conn-All answer (q ∷ qs) (suc fuel) (suc writes) h w f =
    rw ((read_msg-framed q (sent qs)).0 h.0) (
      ap (◌∷◌ (framed (answer q)))
        (serve_conn-All answer qs fuel writes h.1 (omega arith) (omega arith)))

-- A SERVFAIL answer: 12 bytes with the query's identifier, the response bit and code 2.
abbrev pub IsServfail : Bytes → Bytes → Type 0
IsServfail query resp =
    (length resp ≡ 12)
    × (get_elem? resp 0 ≡ get_elem? query 0)
    × (get_elem? resp 1 ≡ get_elem? query 1)
    × ((flags : ℕ) × (get_elem? resp 2 ≡ some flags)
        × (128 ≤ flags)
        × ((b : ℕ) × (get_elem? query 2 ≡ some b) × (flags % 128 ≡ b % 128)))
    × ((code : ℕ) × (get_elem? resp 3 ≡ some code) × (code % 16 ≡ 2))

-- `servfail` answers every query that has a whole header, keeping its identifier, opcode and the
-- recursion bit, and no shorter one.
pub servfail_lem :
    (query : Bytes)
    → (length query < 12 → servfail query ≡ none)
      × (12 ≤ length query
          → All (λ b. b < 256) query
          → (resp : Bytes) × (servfail query ≡ some resp) × IsServfail query resp)
unfolding servfail
servfail_lem [] = (λ h. refl, λ h g. absurd (omega arith))
servfail_lem (a ∷ []) = (λ h. refl, λ h g. absurd (omega arith))
servfail_lem (a ∷ b ∷ []) = (λ h. refl, λ h g. absurd (omega arith))
servfail_lem (a ∷ b ∷ c ∷ rest) = (
  λ h. ground arith,
  λ h g. (
    a ∷ b ∷ set_high c ∷ 130 ∷ 0 ∷ 0 ∷ 0 ∷ 0 ∷ 0 ∷ 0 ∷ 0 ∷ 0 ∷ [],
    ground arith,
    (
      refl,
      refl,
      refl,
      (set_high c, refl, ground arith, (c, refl, ground arith)),
      (130, refl, refl),
    ),
  ),
)
