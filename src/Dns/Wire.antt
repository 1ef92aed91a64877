-- ===== src/Dns/Wire.antt =====
-- What is done on the connections of an upstream of internal/dns/proxy.go, and what that says of the one
-- that is held.
use pia_tun.Base.{List, [], ◌∷◌, Bool, true, false, Option, none, some, ◌≡◌, refl, Result, ok, err}

-- A dial that gave a connection, and a write or a read with whether it succeeded.
pub data Event : Type 0 where
  dials : Event
  uses : Bool → Event

-- Nothing has failed since the last dial; something has; and a connection was used after that.
pub data Wire : Type 0 where
  sound broken reused : Wire

abbrev pub next_wire : Wire → Event → Wire
next_wire reused e = reused
next_wire x dials = sound
next_wire sound (uses true) = sound
next_wire sound (uses false) = broken
next_wire broken (uses b) = reused

-- The last event is the first of the list.
abbrev pub wire : List Event → Wire
wire [] = sound
wire (e ∷ log) = next_wire (wire log) e

abbrev pub is_reused : Wire → Bool
is_reused reused = true
is_reused x = false

abbrev pub is_ok : {A : Type 0} → Result A → Bool
is_ok (ok a) = true
is_ok (err e) = false

abbrev pub dialled : {C : Type 0} → Result C → List Event → List Event
dialled (ok c) log = dials ∷ log
dialled (err e) log = log

pub dials-sound : (x : Wire) → is_reused x ≡ false → next_wire x dials ≡ sound
dials-sound sound p = refl
dials-sound broken p = refl
dials-sound reused p = absurd (apart p)
  where
    apart : true ≡ false → ⊥
    apart q = cc

module _ {C : Type 0} where
  abbrev pub Ready : Wire → Option C → Type 0
  Ready x o = x ≡ sound

  abbrev pub Failed : Wire → Option C → Type 0
  Failed x o = x ≡ broken

  abbrev pub Bare : Wire → Option C → Type 0
  Bare x o = (is_reused x ≡ false) × (o ≡ none)

  -- What is held has not failed.
  abbrev pub Held : Wire → Option C → Type 0
  Held sound o = Unit
  Held broken o = o ≡ none
  Held reused o = ⊥

  pub Bare-Held : (x : Wire) (o : Option C) → Bare x o → Held x o
  Bare-Held sound o p = tt
  Bare-Held broken o p = p.1
  Bare-Held reused o (p, q) = absurd (apart p)
    where
      apart : true ≡ false → ⊥
      apart q = cc

  pub Ready-Held : (x : Wire) (o : Option C) → Ready x o → Held x o
  Ready-Held sound o p = tt
  Ready-Held broken o p = absurd (apart p)
    where
      apart : broken ≡ sound → ⊥
      apart q = cc
  Ready-Held reused o p = absurd (apart p)
    where
      apart : reused ≡ sound → ⊥
      apart q = cc

  pub Held-drop : (x : Wire) (o : Option C) → Held x o → Held x none
  Held-drop sound o p = tt
  Held-drop broken o p = refl
  Held-drop reused o p = elim p [ ]

  pub Bare-drop : (x : Wire) (o : Option C) → Bare x o → Bare x none
  Bare-drop x o p = (p.0, refl)

  pub Held-sound : (x : Wire) (c : C) → Held x (some c) → x ≡ sound
  Held-sound sound c p = refl
  Held-sound broken c p = absurd (apart p)
    where
      apart : some c ≡ none → ⊥
      apart q = cc
  Held-sound reused c p = elim p [ ]

  pub Held-fresh : (x : Wire) (o : Option C) → Held x o → is_reused x ≡ false
  Held-fresh sound o p = refl
  Held-fresh broken o p = refl
  Held-fresh reused o p = elim p [ ]
