-- ===== src/Portsync/Latest.antt =====
-- The syncer of internal/portsync and the last port that it was told of.
use pia_tun.Base.{
  ℕ, List, [], ◌∷◌, ◌++◌, Bool, true, false, not, ◌&&◌, ◌||◌, Option, none, some, ◌≡◌, refl, sym,
  subst, ◌∙◌, ◌⊎◌, inl, inr, arith, ◌==◌, All, if◌then◌else◌,
}
use pia_tun.Portsync.Syncer.{
  Config, Place, waiting, handling, stopped, Call, syncs, runs, Syncer, new, Move, notifies,
  receives, tries, is_done, notify_port, handle, receive_at, attempted, try_sync, try_at, run,
}

-- The client has accepted the port; the script has succeeded with it.
abbrev pub synced : ℕ → List Call → Bool
synced p [] = false
synced p (syncs q answer ∷ cs) = (answer && (q == p)) || synced p cs
synced p (runs q answer ∷ cs) = synced p cs

abbrev pub scripted : ℕ → List Call → Bool
scripted p [] = false
scripted p (syncs q answer ∷ cs) = scripted p cs
scripted p (runs q answer ∷ cs) = (answer && (q == p)) || scripted p cs

-- The client has the port if there is a client, and so with the script.
pub record Delivered (p : ℕ) (s : Syncer) : Type 0 where
  pub client : s.has_client ≡ true → synced p s.calls ≡ true
  pub script : s.has_script ≡ true → scripted p s.calls ≡ true

abbrev pub IsOn : Move → Type 0
IsOn (notifies p) = Unit
IsOn receives = Unit
IsOn (tries c d) = Unit
IsOn is_done = ⊥

-- The last port of the notifications, or the one before them.
abbrev pub latest : Option ℕ → List Move → Option ℕ
latest o [] = o
latest o (notifies p ∷ ms) = latest (some p) ms
latest o (receives ∷ ms) = latest o ms
latest o (tries c d ∷ ms) = latest o ms
latest o (is_done ∷ ms) = latest o ms

abbrev AtPort : ℕ → Syncer → Place → Type 0
AtPort p s waiting = Delivered p s
AtPort p s (handling q c d) =
    (q ≡ p)
    × (c ≡ true → s.has_client ≡ true → synced p s.calls ≡ true)
    × (d ≡ true → s.has_script ≡ true → scripted p s.calls ≡ true)
AtPort p s stopped = ⊥

-- The last port waits in the channel, is handled, or is delivered.
abbrev Tracks : Option ℕ → Syncer → Type 0
Tracks none s = (s.port_ch ≡ none) × (s.place ≡ waiting)
Tracks (some p) s = (s.port_ch ≡ some p) ⊎ ((s.port_ch ≡ none) × AtPort p s s.place)

same_port : (p : ℕ) → (p == p) ≡ true
same_port p = ground arith

synced-attempt :
    (p : ℕ) (hc c a x b : Bool) (cs : List Call)
    → (c ≡ true → hc ≡ true → synced p cs ≡ true)
    → (c || ((hc && not c) && a)) ≡ true
    → hc ≡ true
    → synced p (attempted x (runs p b) ++ (attempted (hc && not c) (syncs p a) ++ cs)) ≡ true
synced-attempt p hc true a true b cs h k e = rw e (h refl e)
synced-attempt p hc true a false b cs h k e = rw e (h refl e)
synced-attempt p true false true true b cs h k e = rw (same_port p) refl
synced-attempt p true false true false b cs h k e = rw (same_port p) refl
synced-attempt p true false false x b cs h k e = ground arith
synced-attempt p false false a x b cs h k e = ground arith

scripted-attempt :
    (p : ℕ) (hs d b y a : Bool) (cs : List Call)
    → (d ≡ true → hs ≡ true → scripted p cs ≡ true)
    → (d || ((hs && not d) && b)) ≡ true
    → hs ≡ true
    → scripted p (attempted (hs && not d) (runs p b) ++ (attempted y (syncs p a) ++ cs)) ≡ true
scripted-attempt p hs true b true a cs h k e = rw e (h refl e)
scripted-attempt p hs true b false a cs h k e = rw e (h refl e)
scripted-attempt p true false true y a cs h k e = rw (same_port p) refl
scripted-attempt p true false false y a cs h k e = ground arith
scripted-attempt p false false b y a cs h k e = ground arith

-- The end of an attempt, by its flags.
placed :
    (p : ℕ) (s : Syncer) (c d : Bool)
    → (c ≡ true → s.has_client ≡ true → synced p s.calls ≡ true)
    → (d ≡ true → s.has_script ≡ true → scripted p s.calls ≡ true)
    → AtPort p s (if c && d then waiting else handling p c d)
placed p s true true f g = record { client = f refl; script = g refl }
placed p s true false f g = (refl, f, g)
placed p s false true f g = (refl, f, g)
placed p s false false f g = (refl, f, g)

try_sync-AtPort :
    (p : ℕ) (c d a b : Bool) (s : Syncer)
    → AtPort p s (handling p c d)
    → AtPort p (try_sync p c d a b s) (try_sync p c d a b s).place
unfolding try_sync
try_sync-AtPort p c d a b s h =
    placed p (try_sync p c d a b s) _ _
      (synced-attempt p s.has_client c a (s.has_script && not d) b s.calls h.1)
      (scripted-attempt p s.has_script d b (s.has_client && not c) a s.calls h.2)

tried-Tracks :
    (p : ℕ) (a b : Bool) (s : Syncer) (place : Place)
    → s.place ≡ place
    → Tracks (some p) s
    → Tracks (some p) (try_at place a b s)
unfolding try_sync
tried-Tracks p a b s waiting e h = h
tried-Tracks p a b s stopped e h = h
tried-Tracks p a b s (handling q c d) e (inl k) = inl k
tried-Tracks p a b s (handling q c d) e (inr (k, h)) = inr (k, same (subst (AtPort p s) e h))
  where
    same :
        AtPort p s (handling q c d) → AtPort p (try_sync q c d a b s) (try_sync q c d a b s).place
    same f =
        subst (λ x. AtPort p (try_sync x c d a b s) (try_sync x c d a b s).place) (sym f.0)
          (try_sync-AtPort p c d a b s (refl, f.1, f.2))

fresh-AtPort : (p : ℕ) (s : Syncer) → AtPort p s (handle p s)
fresh-AtPort p s = (refl, not_done s.has_client, not_done s.has_script)
  where
    not_done : (b : Bool) {P : Type 0} → not b ≡ true → b ≡ true → P
    not_done true h k = ground arith
    not_done false h k = ground arith

-- A port that is received is the last one: the channel holds no other.
taken-Tracks :
    (p x : ℕ) (s : Syncer)
    → s.port_ch ≡ some x
    → Tracks (some p) s
    → Tracks (some p) (record s { port_ch = none; place = handle x s })
taken-Tracks p x s c (inl k) =
    let e : p ≡ x = some_injective (sym k ∙ c) in
    inr (refl, subst (λ y. AtPort p (after y) (after y).place) e (fresh-AtPort p (after p)))
  where
    after : ℕ → Syncer
    after y = record s { port_ch = none; place = handle y s }

    some_injective : some p ≡ some x → p ≡ x
    some_injective q = cc
taken-Tracks p x s c (inr (k, h)) = absurd (none_some (sym k ∙ c))
  where
    none_some : none ≡ some x → ⊥
    none_some q = cc

received-Tracks :
    (p : ℕ) (s : Syncer) (place : Place) (ch : Option ℕ)
    → s.port_ch ≡ ch
    → Tracks (some p) s
    → Tracks (some p) (receive_at place ch s)
received-Tracks p s waiting none c h = h
received-Tracks p s (handling q a b) none c h = h
received-Tracks p s stopped ch c h = h
received-Tracks p s waiting (some x) c h = taken-Tracks p x s c h
received-Tracks p s (handling q a b) (some x) c h = taken-Tracks p x s c h

received-none :
    (s : Syncer) (place : Place) (ch : Option ℕ)
    → s.place ≡ place
    → s.port_ch ≡ ch
    → Tracks none s
    → Tracks none (receive_at place ch s)
received-none s place none e c h = none_stays place
  where
    none_stays : (q : Place) → Tracks none (receive_at q none s)
    none_stays waiting = h
    none_stays (handling x a b) = h
    none_stays stopped = h
received-none s place (some x) e c h = absurd (none_some (sym h.0 ∙ c))
  where
    none_some : none ≡ some x → ⊥
    none_some q = cc

tried-none :
    (a b : Bool) (s : Syncer) (place : Place)
    → s.place ≡ place
    → Tracks none s
    → Tracks none (try_at place a b s)
tried-none a b s waiting e h = h
tried-none a b s stopped e h = h
tried-none a b s (handling q c d) e h = absurd (apart (sym h.1 ∙ e))
  where
    apart : waiting ≡ handling q c d → ⊥
    apart x = cc

run-Tracks :
    (o : Option ℕ) (ms : List Move) (s : Syncer)
    → All IsOn ms
    → Tracks o s
    → Tracks (latest o ms) (run ms s)
unfolding run notify_port
run-Tracks o [] s on h = h
run-Tracks o (notifies p ∷ ms) s on h =
    run-Tracks (some p) ms (record s { port_ch = some p }) on.1 (inl refl)
run-Tracks none (receives ∷ ms) s on h =
    run-Tracks none ms _ on.1 (received-none s s.place s.port_ch refl refl h)
run-Tracks (some p) (receives ∷ ms) s on h =
    run-Tracks (some p) ms _ on.1 (received-Tracks p s s.place s.port_ch refl h)
run-Tracks none (tries a b ∷ ms) s on h =
    run-Tracks none ms _ on.1 (tried-none a b s s.place refl h)
run-Tracks (some p) (tries a b ∷ ms) s on h =
    run-Tracks (some p) ms _ on.1 (tried-Tracks p a b s s.place refl h)
run-Tracks o (is_done ∷ ms) s on h = absurd on.0

-- As long as the context is not done: when the syncer has nothing left to do, that is, when it waits
-- and no port is in its channel, the client has accepted the last port that it was told of, and the
-- script has succeeded with it, as far as they are configured, however the notifications, the timer
-- and the answers are ordered.
pub run-Delivered :
    (cfg : Config) (ms : List Move) (p : ℕ)
    → All IsOn ms
    → latest none ms ≡ some p
    → (run ms (new cfg)).port_ch ≡ none
    → (run ms (new cfg)).place ≡ waiting
    → Delivered p (run ms (new cfg))
unfolding new
run-Delivered cfg ms p on last empty idle =
    delivered
      (subst (λ o. Tracks o (run ms (new cfg))) last (run-Tracks none ms (new cfg) on (refl, refl)))
  where
    delivered : Tracks (some p) (run ms (new cfg)) → Delivered p (run ms (new cfg))
    delivered (inl k) = absurd (none_some (sym empty ∙ k))
      where
        none_some : none ≡ some p → ⊥
        none_some q = cc
    delivered (inr (k, h)) = subst (AtPort p (run ms (new cfg))) idle h
