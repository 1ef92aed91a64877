-- ===== src/Pia/JsonEnd.antt =====
-- `findJSONEnd` of internal/pia/client.go: where the first JSON object of an answer ends.
use pia_tun.Base.{
  ℕ, ◌+◌, [], ◌∷◌, Bool, true, false, not, ◌&&◌, Option, none, some, ◌==◌, if◌then◌else◌,
}
use pia_tun.Base.Text.{Bytes}

-- `depth` may go below zero in the source, where a "}" comes first: it is kept as two counts.
pub record Scan : Type 0 where
  pub opened : ℕ
  pub closed : ℕ
  pub in_string : Bool
  pub escaped : Bool

abbrev pub scan_start : Scan
scan_start = record { opened = 0; closed = 0; in_string = false; escaped = false }

-- One byte outside of the return: the new variables.
abbrev pub scan_byte : ℕ → Scan → Scan
scan_byte b s =
    if s.escaped
    then record s { escaped = false }
    else if (b == b'\\') && s.in_string
    then record s { escaped = true }
    else if b == b'"'
    then record s { in_string = not s.in_string }
    else if s.in_string
    then s
    else if b == b'{'
    then record s { opened = s.opened + 1 }
    else if b == b'}'
    then record s { closed = s.closed + 1 }
    else s

-- The test that returns: a "}" outside of strings that brings the depth back to 0.
abbrev pub scan_ends : ℕ → Scan → Bool
scan_ends b s = not s.escaped && not s.in_string && (b == b'}') && (s.opened == s.closed + 1)

-- `none` is -1. `i` is the index of the next byte.
unfoldable pub find_from : ℕ → Scan → Bytes → Option ℕ
find_from i s [] = none
find_from i s (b ∷ bs) =
    let rest = find_from (i + 1) (scan_byte b s) bs in if scan_ends b s then some (i + 1) else rest

unfoldable pub find_json_end : Bytes → Option ℕ
find_json_end bs = find_from 0 scan_start bs
