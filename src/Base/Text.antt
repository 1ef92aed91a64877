-- ===== src/Base/Text.antt =====
-- Go's `strings` package over text as a list of byte values.
use Prim.Native.Char.{Char, code}
use pia_tun.Base.{ℕ, String, List, [], ◌∷◌, Bool, true, false, ◌&&◌, ◌||◌, ◌==◌, if◌then◌else◌}

abbrev pub Bytes : Type 0
Bytes = List ℕ

-- The bytes of an ASCII literal.
abbrev pub codes : String → Bytes
codes String.[] = []
codes (String.◌∷◌ c s) = code c ∷ codes s

abbrev pub same_bytes : Bytes → Bytes → Bool
same_bytes [] [] = true
same_bytes (x ∷ xs) (y ∷ ys) = (x == y) && same_bytes xs ys
same_bytes _ _ = false

-- `strings.HasPrefix(s, p)`.
abbrev pub has_prefix : Bytes → Bytes → Bool
has_prefix s [] = true
has_prefix [] (y ∷ p) = false
has_prefix (x ∷ s) (y ∷ p) = (x == y) && has_prefix s p

-- `strings.HasSuffix(s, p)`.
abbrev pub has_suffix : Bytes → Bytes → Bool
has_suffix [] p = same_bytes [] p
has_suffix (x ∷ s) p = same_bytes (x ∷ s) p || has_suffix s p

-- `strings.Contains(s, p)`.
abbrev pub contains : Bytes → Bytes → Bool
contains [] p = has_prefix [] p
contains (x ∷ s) p = has_prefix (x ∷ s) p || contains s p

-- A text as its characters, and back.
abbrev pub chars : String → List Char
chars String.[] = []
chars (String.◌∷◌ c s) = c ∷ chars s

abbrev pub of_chars : List Char → String
of_chars [] = String.[]
of_chars (c ∷ cs) = String.◌∷◌ c (of_chars cs)

abbrev pub code_in : List ℕ → Char → Bool
code_in [] c = false
code_in (n ∷ ns) c = (code c == n) || code_in ns c

-- Put a character in front of the first field.
abbrev pub onto_first : Char → List (List Char) → List (List Char)
onto_first c [] = (c ∷ []) ∷ []
onto_first c (f ∷ fs) = (c ∷ f) ∷ fs

-- The fields between the characters of `seps`, the empty ones too.
abbrev pub split_chars : List ℕ → List Char → List (List Char)
split_chars seps [] = [] ∷ []
split_chars seps (c ∷ cs) =
    let rest = split_chars seps cs in if code_in seps c then [] ∷ rest else onto_first c rest

-- The ASCII characters that `unicode.IsSpace` accepts.
abbrev pub spaces : List ℕ
spaces = 9 ∷ 10 ∷ 11 ∷ 12 ∷ 13 ∷ 32 ∷ []

abbrev pub trim_left : List Char → List Char
trim_left [] = []
trim_left (c ∷ cs) = let rest = trim_left cs in if code_in spaces c then rest else c ∷ cs

abbrev pub trim_right : List Char → List Char
trim_right [] = []
trim_right (c ∷ cs) =
    let rest = trim_right cs in
    elim rest [ [] ↦ if code_in spaces c then [] else c ∷ [] | d ∷ ds ↦ c ∷ d ∷ ds ]

-- `strings.TrimSpace(s)`.
abbrev pub trim_space : List Char → List Char
trim_space s = trim_right (trim_left s)

abbrev pub non_empty : List (List Char) → List (List Char)
non_empty [] = []
non_empty ([] ∷ fs) = non_empty fs
non_empty ((c ∷ f) ∷ fs) = (c ∷ f) ∷ non_empty fs

abbrev pub texts : List (List Char) → List String
texts [] = []
texts (f ∷ fs) = of_chars f ∷ texts fs

-- `strings.Split(s, sep)` for a separator of one character.
abbrev pub split : ℕ → String → List String
split sep s = texts (split_chars (sep ∷ []) (chars s))

-- `strings.Fields(s)`.
abbrev pub fields : String → List String
fields s = texts (non_empty (split_chars spaces (chars s)))

-- The trimmed fields of a comma-separated list that are not empty.
abbrev pub trimmed : List (List Char) → List (List Char)
trimmed [] = []
trimmed (f ∷ fs) = trim_space f ∷ trimmed fs
