-- ===== src/Portsync/JsonLaws.antt =====
-- What `jsonEscape` of internal/portsync/deluge.go writes is read back by a JSON reader.
use pia_tun.Base.{
  ℕ, [], ◌∷◌, ◌++◌, Bool, ◌||◌, Option, none, some, ◌≡◌, refl, ◌∙◌, ap, arith, ◌==◌, ltb, leb, true,
  All, if◌then◌else◌,
}
use mathlib.Core.List.{append_assoc}
use pia_tun.Base.Text.{Bytes}
use pia_tun.Portsync.Json.{newline, carriage_return, tab, backslash, quote, json_escape}

-- The escape of one byte.
abbrev escape : ℕ → Bytes
escape b =
    if b == backslash
    then backslash ∷ backslash ∷ []
    else if b == quote
    then backslash ∷ quote ∷ []
    else if b == newline
    then backslash ∷ b'n' ∷ []
    else if b == carriage_return
    then backslash ∷ b'r' ∷ []
    else if b == tab
    then backslash ∷ b't' ∷ []
    else b ∷ []

abbrev escaped : Bytes → Bytes
escaped [] = []
escaped (b ∷ s) = escape b ++ escaped s

json_escape-cons : (b : ℕ) (s : Bytes) → json_escape (b ∷ s) ≡ escape b ++ json_escape s
unfolding json_escape
json_escape-cons b s = ground arith

-- How RFC 8259 reads a string behind its opening quote: its bytes, and what stands behind the quote that
-- closes it. A control character that is not escaped is no part of a string. The escapes that are not
-- listed here do not matter.
abbrev pub unescape : ℕ → Option ℕ
unescape c =
    if c == backslash
    then some backslash
    else if c == quote
    then some quote
    else if c == b'n'
    then some newline
    else if c == b'r'
    then some carriage_return
    else if c == b't'
    then some tab
    else none

abbrev pub onto : Option ℕ → Option (Bytes × Bytes) → Option (Bytes × Bytes)
onto (some b) (some (s, rest)) = some (b ∷ s, rest)
onto _ _ = none

abbrev pub read_string : Bytes → Option (Bytes × Bytes)
read_string [] = none
read_string (b ∷ []) = if b == quote then some ([], []) else none
read_string (b ∷ c ∷ s) =
    let plain = read_string (c ∷ s) in
    let escape_read = read_string s in
    if b == quote
    then some ([], c ∷ s)
    else if b == backslash
    then onto (unescape c) escape_read
    else if ltb b 32
    then none
    else onto (some b) plain

-- A byte that no JSON string has to escape, or one that `jsonEscape` does.
abbrev pub is_covered : ℕ → Bool
is_covered b = leb 32 b || (b == newline) || (b == carriage_return) || (b == tab)

read_string-escape_byte :
    (b c : ℕ) (s : Bytes)
    → is_covered b ≡ true
    → read_string (escape b ++ (c ∷ s)) ≡ onto (some b) (read_string (c ∷ s))
read_string-escape_byte b c s h = ground arith

read_string-closed : (rest : Bytes) → read_string (quote ∷ rest) ≡ some ([], rest)
read_string-closed [] = refl
read_string-closed (c ∷ s) = refl

-- A text in which every control character is a line break or a tab is read back, to the quote behind it,
-- from what `jsonEscape` makes of it: no text ends the string early.
pub read_string-json_escape :
    (s rest : Bytes)
    → All (λ b. is_covered b ≡ true) s
    → read_string (json_escape s ++ (quote ∷ rest)) ≡ some (s, rest)
read_string-json_escape [] rest h = json_nil (read_string-closed rest)
  where
    json_nil :
        read_string (quote ∷ rest) ≡ some ([], rest)
        → read_string (json_escape [] ++ (quote ∷ rest)) ≡ some ([], rest)
    json_nil e = unfold json_escape in e
read_string-json_escape (b ∷ s) rest h =
    ap (λ t. read_string (t ++ (quote ∷ rest))) (json_escape-cons b s)
    ∙ ap read_string (append_assoc (escape b) (json_escape s) (quote ∷ rest))
    ∙ first (json_escape s)
    ∙ ap (onto (some b)) (read_string-json_escape s rest h.1)
  where
    first :
        (t : Bytes)
        → read_string (escape b ++ (t ++ (quote ∷ rest)))
          ≡ onto (some b) (read_string (t ++ (quote ∷ rest)))
    first [] = read_string-escape_byte b quote rest h.0
    first (c ∷ t) = read_string-escape_byte b c (t ++ (quote ∷ rest)) h.0
