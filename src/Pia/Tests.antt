-- ===== src/Pia/Tests.antt =====
-- Runs of internal/pia.
use pia_tun.Base.{ℕ, [], ◌∷◌, ◌≡◌, some, take, arith}
use pia_tun.Base.Text.{codes}
use pia_tun.Pia.JsonEnd.{find_json_end}
use pia_tun.Pia.JsonEndLaws.{
  Doc, end, plain, quoted, object, byte, escape, object_text, find_json_end_cuts,
}

-- `{"}\"":{}}`
abbrev answer : Doc
answer = quoted (byte b'}' ∷ escape b'"' ∷ []) (plain b':' (object end end))

find_json_end_cuts_example :
    (n : ℕ) × (find_json_end (object_text answer (codes "}sig")) ≡ some n)
    × (take n (object_text answer (codes "}sig")) ≡ object_text answer [])
find_json_end_cuts_example = find_json_end_cuts answer (codes "}sig") (
  ((λ h. omega arith, λ h. omega arith), (tt, tt)),
  (λ h. omega arith, λ h. omega arith, λ h. omega arith, (tt, tt)),
)
