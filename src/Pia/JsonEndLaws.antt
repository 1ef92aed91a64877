-- ===== src/Pia/JsonEndLaws.antt =====
-- `findJSONEnd` on texts whose braces match outside of quotes, as those of JSON objects do.
use pia_tun.Base.{
  ℕ, suc, ◌+◌, ◌<◌, List, [], ◌∷◌, ◌++◌, Bool, true, false, some, ◌≡◌, refl, ap, ◌∙◌, arith, ◌≢◌,
  length, take, take-length_append,
}
use pia_tun.Base.Text.{Bytes}
use pia_tun.Pia.JsonEnd.{Scan, find_from, find_json_end}

-- A piece of a quoted text: a byte that is neither a quote nor a backslash, or an escaped byte.
pub data Piece : Type 0 where
  byte escape : ℕ → Piece

abbrev pub IsPiece : Piece → Type 0
IsPiece (byte b) = (b ≢ b'"') × (b ≢ b'\\')
IsPiece (escape b) = Unit

-- A text whose braces match: bytes outside of quotes, quoted texts, and objects.
pub data Doc : Type 0 where
  end : Doc
  plain : ℕ → Doc → Doc
  quoted : List Piece → Doc → Doc
  object : Doc → Doc → Doc

abbrev pub AllPieces : List Piece → Type 0
AllPieces [] = Unit
AllPieces (p ∷ ps) = IsPiece p × AllPieces ps

abbrev pub IsDoc : Doc → Type 0
IsDoc end = Unit
IsDoc (plain b d) = (b ≢ b'"') × (b ≢ b'{') × (b ≢ b'}') × IsDoc d
IsDoc (quoted ps d) = AllPieces ps × IsDoc d
IsDoc (object c d) = IsDoc c × IsDoc d

-- The text, in front of the rest.
abbrev pub show_pieces : List Piece → Bytes → Bytes
show_pieces [] rest = rest
show_pieces (byte b ∷ ps) rest = b ∷ show_pieces ps rest
show_pieces (escape b ∷ ps) rest = b'\\' ∷ b ∷ show_pieces ps rest

abbrev pub show_doc : Doc → Bytes → Bytes
show_doc end rest = rest
show_doc (plain b d) rest = b ∷ show_doc d rest
show_doc (quoted ps d) rest = b'"' ∷ show_pieces ps (b'"' ∷ show_doc d rest)
show_doc (object c d) rest = b'{' ∷ show_doc c (b'}' ∷ show_doc d rest)

abbrev size_pieces : List Piece → ℕ
size_pieces [] = 0
size_pieces (byte b ∷ ps) = suc (size_pieces ps)
size_pieces (escape b ∷ ps) = suc (suc (size_pieces ps))

abbrev pub size_doc : Doc → ℕ
size_doc end = 0
size_doc (plain b d) = suc (size_doc d)
size_doc (quoted ps d) = suc (suc (size_pieces ps + size_doc d))
size_doc (object c d) = suc (suc (size_doc c + size_doc d))

abbrev at_depth : ℕ → ℕ → Bool → Scan
at_depth o c q = record { opened = o; closed = c; in_string = q; escaped = false }

-- Inside of quotes nothing is counted.
find_from-pieces :
    (i j o c : ℕ) (ps : List Piece) (rest : Bytes)
    → AllPieces ps
    → j ≡ i + size_pieces ps
    → find_from i (at_depth o c true) (show_pieces ps rest) ≡ find_from j (at_depth o c true) rest
unfolding find_from
find_from-pieces i j o c [] rest h e = ap (λ k. find_from k (at_depth o c true) rest) (omega arith)
find_from-pieces i j o c (byte b ∷ ps) rest h e =
    ground (arith, find_from-pieces (i + 1) j o c ps rest)
find_from-pieces i j o c (escape b ∷ ps) rest h e =
    ground (arith, find_from-pieces (i + 1 + 1) j o c ps rest)

abbrev braces : Doc → ℕ
braces end = 0
braces (plain b d) = braces d
braces (quoted ps d) = braces d
braces (object c d) = suc (braces c + braces d)

-- Inside of an object a matching text is passed over, and opens as much as it closes.
find_from-doc :
    (i j o c o' c' : ℕ) (d : Doc) (rest : Bytes)
    → IsDoc d
    → c < o
    → j ≡ i + size_doc d
    → o' ≡ o + braces d
    → c' ≡ c + braces d
    → find_from i (at_depth o c false) (show_doc d rest) ≡ find_from j (at_depth o' c' false) rest
unfolding find_from
find_from-doc i j o c o' c' end rest h l e p q = rw (numbers j i e, numbers o' o p, numbers c' c q)
  where
    numbers : (m n : ℕ) → m ≡ n + 0 → m ≡ n
    numbers m n x = omega arith
find_from-doc i j o c o' c' (plain b d) rest h l e p q =
    ground (arith, find_from-doc (i + 1) j o c o' c' d rest)
find_from-doc i j o c o' c' (quoted ps d) rest h l e p q =
    let n = i + 1 + size_pieces ps in
    find_from-pieces (i + 1) n o c ps (b'"' ∷ show_doc d rest) h.0 refl
    ∙ find_from-doc (n + 1) j o c o' c' d rest h.1 l (omega arith) p q
find_from-doc i j o c o' c' (object k d) rest h l e p q =
    let n = i + 1 + size_doc k in
    find_from-doc (i + 1) n (o + 1) c (o + 1 + braces k) (c + braces k) k (b'}' ∷ show_doc d rest)
      h.0 (omega arith) refl refl refl
    ∙ ground (arith, find_from-doc (n + 1) j (o + 1 + braces k) (c + braces k + 1) o' c' d rest)

show_pieces-append :
    (ps : List Piece) (xs ys : Bytes) → show_pieces ps (xs ++ ys) ≡ show_pieces ps xs ++ ys
show_pieces-append [] xs ys = refl
show_pieces-append (byte b ∷ ps) xs ys = ap (◌∷◌ b) (show_pieces-append ps xs ys)
show_pieces-append (escape b ∷ ps) xs ys = ap (λ t. b'\\' ∷ b ∷ t) (show_pieces-append ps xs ys)

show_doc-append : (d : Doc) (xs ys : Bytes) → show_doc d (xs ++ ys) ≡ show_doc d xs ++ ys
show_doc-append end xs ys = refl
show_doc-append (plain b d) xs ys = ap (◌∷◌ b) (show_doc-append d xs ys)
show_doc-append (quoted ps d) xs ys =
    ap (λ t. b'"' ∷ show_pieces ps (b'"' ∷ t)) (show_doc-append d xs ys)
    ∙ ap (◌∷◌ b'"') (show_pieces-append ps _ ys)
show_doc-append (object c d) xs ys =
    ap (λ t. b'{' ∷ show_doc c (b'}' ∷ t)) (show_doc-append d xs ys)
    ∙ ap (◌∷◌ b'{') (show_doc-append c _ ys)

length-show_pieces :
    (ps : List Piece) (xs : Bytes) → length (show_pieces ps xs) ≡ size_pieces ps + length xs
length-show_pieces [] xs = omega arith
length-show_pieces (byte b ∷ ps) xs = omega (arith, length-show_pieces ps xs)
length-show_pieces (escape b ∷ ps) xs = omega (arith, length-show_pieces ps xs)

length-show_doc : (d : Doc) (xs : Bytes) → length (show_doc d xs) ≡ size_doc d + length xs
length-show_doc end xs = omega arith
length-show_doc (plain b d) xs = omega (arith, length-show_doc d xs)
length-show_doc (quoted ps d) xs =
    omega (arith, length-show_pieces ps (b'"' ∷ show_doc d xs), length-show_doc d xs)
length-show_doc (object c d) xs =
    omega (arith, length-show_doc c (b'}' ∷ show_doc d xs), length-show_doc d xs)

abbrev pub object_text : Doc → Bytes → Bytes
object_text d rest = show_doc (object d end) rest

find_json_end-object_text :
    (d : Doc) (rest : Bytes)
    → IsDoc d
    → find_json_end (object_text d rest) ≡ some (length (object_text d []))
unfolding find_json_end find_from
find_json_end-object_text d rest h =
    find_from-doc (0 + 1) (0 + 1 + size_doc d) (0 + 1) 0 (0 + 1 + braces d) (braces d) d
      (b'}' ∷ rest) h (omega arith) refl refl (omega arith)
    ∙ ground (arith, length-show_doc d (b'}' ∷ []))

-- On an object with any text behind it, `findJSONEnd` returns the end of the object: what is cut off
-- is exactly the text behind it. The object may hold quoted braces, escaped quotes and other objects.
pub find_json_end_cuts :
    (d : Doc) (rest : Bytes)
    → IsDoc d
    → (n : ℕ) × (find_json_end (object_text d rest) ≡ some n)
      × (take n (object_text d rest) ≡ object_text d [])
find_json_end_cuts d rest h = (
  length (object_text d []),
  find_json_end-object_text d rest h,
  ap (take (length (object_text d []))) (show_doc-append (object d end) [] rest)
      ∙ take-length_append (object_text d []) rest,
)
