-- ===== src/Portsync/Json.antt =====
-- `jsonEscape` of internal/portsync/deluge.go, and `strings.ReplaceAll`.
use pia_tun.Base.{ℕ, zero, suc, ◌-◌, [], ◌∷◌, ◌++◌, ◌==◌, length, if◌then◌else◌}
use pia_tun.Base.Text.{Bytes, has_prefix}

-- `strings.ReplaceAll(s, old, new)` for an `old` of one byte.
abbrev pub replace_byte : ℕ → Bytes → Bytes → Bytes
replace_byte old new [] = []
replace_byte old new (b ∷ s) =
    let rest = replace_byte old new s in if b == old then new ++ rest else b ∷ rest

-- `strings.ReplaceAll(s, old, new)` for an `old` that is not empty, behind so many bytes of a match.
abbrev pub replace_from : ℕ → Bytes → Bytes → Bytes → Bytes
replace_from skip old new [] = []
replace_from (suc skip) old new (b ∷ s) = replace_from skip old new s
replace_from zero old new (b ∷ s) =
    let replaced = replace_from (length old - 1) old new s in
    let kept = replace_from zero old new s in
    if has_prefix (b ∷ s) old then new ++ replaced else b ∷ kept

abbrev pub replace_all : Bytes → Bytes → Bytes → Bytes
replace_all s old new = replace_from zero old new s

abbrev pub newline : ℕ
newline = 10

abbrev pub carriage_return : ℕ
carriage_return = 13

abbrev pub tab : ℕ
tab = 9

abbrev pub backslash : ℕ
backslash = 92

abbrev pub quote : ℕ
quote = 34

unfoldable pub json_escape : Bytes → Bytes
json_escape s =
    let s1 = replace_byte backslash (backslash ∷ backslash ∷ []) s in
    let s2 = replace_byte quote (backslash ∷ quote ∷ []) s1 in
    let s3 = replace_byte newline (backslash ∷ b'n' ∷ []) s2 in
    let s4 = replace_byte carriage_return (backslash ∷ b'r' ∷ []) s3 in
    replace_byte tab (backslash ∷ b't' ∷ []) s4
