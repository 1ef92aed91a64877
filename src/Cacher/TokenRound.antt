-- ===== src/Cacher/TokenRound.antt =====
-- The token file: what `New` reads of what `SetToken` wrote.
use Prim.Native.Char.{Char}
use pia_tun.Base.{
  ℕ, ◌/◌, ◌*◌, ◌-◌, ◌≤◌, String, List, [], ◌∷◌, ◌++◌, false, some, ◌≡◌, refl, ap, ◌∙◌, ltb, arith,
  ok, All,
}
use pia_tun.Base.Text.{chars, of_chars, code_in, spaces, trim_left, trim_right, trim_space}
use pia_tun.Host.{Host}
use pia_tun.Cacher.Cache.{join, nanoseconds, max_token_age, token_file, token_content}
use pia_tun.Cacher.TokenFile.{TokenDisk, split_line, read_token_file, with_token, new}

abbrev IsDark : Char → Type 0
IsDark c = code_in spaces c ≡ false

abbrev line_break : Char
line_break = "\n"

abbrev newline : List Char
newline = line_break ∷ []

chars-of_chars : (cs : List Char) → chars (of_chars cs) ≡ cs
chars-of_chars [] = refl
chars-of_chars (c ∷ cs) = ap (λ ds. c ∷ ds) (chars-of_chars cs)

of_chars-chars : (s : String) → of_chars (chars s) ≡ s
of_chars-chars String.[] = refl
of_chars-chars (String.◌∷◌ c s) = ap (String.◌∷◌ c) (of_chars-chars s)

chars-join : (a b : String) → chars (join a b) ≡ chars a ++ chars b
chars-join a b = chars-of_chars (chars a ++ chars b)

trim_left-dark : (c : Char) (cs : List Char) → IsDark c → trim_left (c ∷ cs) ≡ c ∷ cs
trim_left-dark c cs h = rw h refl

-- Dark characters stay, and the line break behind them goes.
trim_right-dark :
    (c : Char) (cs : List Char)
    → IsDark c
    → All IsDark cs
    → trim_right ((c ∷ cs) ++ newline) ≡ c ∷ cs
trim_right-dark c [] h g = rw h refl
trim_right-dark c (d ∷ cs) h g = rw (trim_right-dark d cs g.0 g.1) refl

-- What is in front of a text that is not trimmed away stays.
trim_right-append :
    (xs ys zs : List Char) (z : Char)
    → trim_right ys ≡ z ∷ zs
    → trim_right (xs ++ ys) ≡ xs ++ (z ∷ zs)
trim_right-append [] ys zs z h = h
trim_right-append (x ∷ []) ys zs z h = rw h refl
trim_right-append (x ∷ y ∷ xs) ys zs z h = rw (trim_right-append (y ∷ xs) ys zs z h) refl

split_line-dark :
    (xs rest : List Char) → All IsDark xs → split_line (xs ++ (newline ++ rest)) ≡ some (xs, rest)
split_line-dark [] rest h = refl
split_line-dark (x ∷ xs) rest h =
    let no_break : code_in (10 ∷ []) x ≡ false = ground (arith, h.0) in
    rw (no_break, split_line-dark xs rest h.1) refl

-- A text of one character at least, none of them a space.
pub record IsWord (s : String) : Type 0 where
  pub first : Char
  pub others : List Char
  pub is_first : chars s ≡ first ∷ others
  pub dark : All IsDark (first ∷ others)

module _ {W : Type 0} (host : Host W) (tokens : TokenDisk W) where
  content_chars :
      (token : String) (t : ℕ)
      → chars (token_content host token t)
        ≡ chars token ++ (newline ++ (chars (host.itoa (t / nanoseconds)) ++ newline))
  content_chars token t =
      chars-join token (join "\n" (join (host.itoa (t / nanoseconds)) "\n"))
      ∙ ap (λ cs. chars token ++ cs)
          (chars-join "\n" (join (host.itoa (t / nanoseconds)) "\n")
            ∙ ap (λ cs. newline ++ cs) (chars-join (host.itoa (t / nanoseconds)) "\n"))

  trimmed :
      (c d : Char) (cs ds : List Char)
      → All IsDark (c ∷ cs)
      → All IsDark (d ∷ ds)
      → trim_space ((c ∷ cs) ++ (newline ++ ((d ∷ ds) ++ newline)))
        ≡ (c ∷ cs) ++ (newline ++ (d ∷ ds))
  trimmed c d cs ds h g =
      ap trim_right (trim_left-dark c (cs ++ (newline ++ ((d ∷ ds) ++ newline))) h.0)
      ∙ trim_right-append (c ∷ cs) (newline ++ ((d ∷ ds) ++ newline)) (d ∷ ds) line_break
          (trim_right-append newline ((d ∷ ds) ++ newline) ds d (trim_right-dark d ds g.0 g.1))

  lines_of_words :
      (a b : List Char) (c d : Char) (cs ds : List Char)
      → a ≡ c ∷ cs
      → b ≡ d ∷ ds
      → All IsDark (c ∷ cs)
      → All IsDark (d ∷ ds)
      → split_line (trim_space (a ++ (newline ++ (b ++ newline)))) ≡ some (a, b)
  lines_of_words a b c d cs ds p q h g =
      rw (p, q) (ap split_line (trimmed c d cs ds h g) ∙ split_line-dark (c ∷ cs) (d ∷ ds) h)

  lines_of_content :
      (token : String) (t : ℕ)
      → IsWord token
      → IsWord (host.itoa (t / nanoseconds))
      → split_line (trim_space (chars (token_content host token t)))
        ≡ some (chars token, chars (host.itoa (t / nanoseconds)))
  lines_of_content token t h g =
      ap (λ cs. split_line (trim_space cs)) (content_chars token t)
      ∙ lines_of_words (chars token) (chars (host.itoa (t / nanoseconds))) h.first g.first h.others
          g.others h.is_first g.is_first h.dark g.dark

  read_content :
      (token : String) (t : ℕ) (w v : W)
      → tokens.read_file token_file w ≡ (ok (token_content host token t), v)
      → tokens.parse_int (host.itoa (t / nanoseconds)) ≡ some (t / nanoseconds)
      → IsWord token
      → IsWord (host.itoa (t / nanoseconds))
      → read_token_file host tokens w ≡ (ok (token, t / nanoseconds * nanoseconds), v)
  unfolding read_token_file
  read_content token t w v r p h g = rw r (
      rw (lines_of_content token t h g)
        (rw (of_chars-chars token, of_chars-chars (host.itoa (t / nanoseconds)), p) refl))

  -- What `New` makes of a token file with what `SetToken` wrote at a time, where the token is not empty
  -- and has no white space, and the digits of the second of that time, with no white space either, are
  -- read back as that second: the cache has the token, with that second, if the token is not older than
  -- 23 hours by it.
  pub new-token_content :
      (token : String) (t n : ℕ) (w v u : W)
      → tokens.read_file token_file w ≡ (ok (token_content host token t), v)
      → tokens.parse_int (host.itoa (t / nanoseconds)) ≡ some (t / nanoseconds)
      → IsWord token
      → IsWord (host.itoa (t / nanoseconds))
      → host.now v ≡ (n, u)
      → n - t / nanoseconds * nanoseconds ≤ max_token_age
      → new host tokens w ≡ (ok (with_token host tokens token (t / nanoseconds * nanoseconds)), u)
  unfolding new
  new-token_content token t n w v u r p h g c young =
      let fresh : ltb max_token_age (n - t / nanoseconds * nanoseconds) ≡ false = ground arith in
      rw (read_content token t w v r p h g) (rw c (rw fresh refl))
