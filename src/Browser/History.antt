-- ===== src/Browser/History.antt =====
-- The browser shows the entry of its history that the position names.
use xanh_tab.Prelude.{
  ℕ, zero, suc, ◌+◌, ◌-◌, ◌<◌, ◌≡◌, refl, ◌⊎◌, inl, inr, true, arith, Option, none, some, List, [],
  ◌∷◌, ◌++◌, length, take, get_elem?, Option-cases, is_some,
}
use xanh_tab.Model.{Url, EgressMode, NavigationCommand, navigate, back, forward, reload}
use xanh_tab.Fallible.{Fallible, done, bail, Fallible-cases}
use xanh_tab.Browser.{
  Pipeline, BrowserCommand, halt, start, go, stop, fresh, Setup, resolve_location, launch, spawn,
  step, apply, run,
}

get_elem-last {ℓ} :
    {A : Type ℓ} (xs : List A) (x : A) → get_elem? (xs ++ x ∷ []) (length xs) ≡ some x
get_elem-last [] x = refl
get_elem-last (y ∷ xs) x = get_elem-last xs x

length-last {ℓ} : {A : Type ℓ} (xs : List A) (x : A) → length (xs ++ x ∷ []) ≡ suc (length xs)
length-last [] x = refl
length-last (y ∷ xs) x = ground (arith, length-last xs x)

get_elem-in {ℓ} :
    {A : Type ℓ} (xs : List A) (i : ℕ) → i < length xs → is_some (get_elem? xs i) ≡ true
get_elem-in [] i h = absurd (omega (arith, h))
get_elem-in (x ∷ xs) zero h = refl
get_elem-in (x ∷ xs) (suc i) h = get_elem-in xs i (omega (arith, h))

-- What a launch at the entry `i` would show.
abbrev pub shown_at : Setup → List Url → ℕ → Option Url
shown_at setup history i = elim (get_elem? history i) [
  | none ↦ none
  | some url ↦ elim (resolve_location setup url) [ bail _ ↦ none | done location ↦ some location ]
]

pub record IsPlaced (setup : Setup) (p : Pipeline) : Type 0 where
  pub placed : (p.position ≡ 0) ⊎ (p.position < length p.history)
  pub shows : (p.child ≡ none) ⊎ (p.child ≡ shown_at setup p.history p.position)

module _ (setup : Setup) where
  launch-resolve :
      (spawned : Fallible (Unit {0})) (egress : EgressMode) (url location : Url)
      → launch setup spawned egress url ≡ done location
      → resolve_location setup url ≡ done location
  unfolding launch
  launch-resolve spawned egress url location h = ground arith

  -- A launch at the entry of the position.
  spawn-IsPlaced :
      (spawned : Fallible (Unit {0})) (url : Url) (p : Pipeline)
      → (p.position ≡ 0) ⊎ (p.position < length p.history)
      → p.child ≡ none
      → get_elem? p.history p.position ≡ some url
      → IsPlaced setup (spawn setup spawned url p).1
  unfolding spawn
  spawn-IsPlaced spawned url p placed quiet here =
      elim (Fallible-cases (launch setup spawned p.egress url)) [
        | inr (e, q) ↦ rw (q, spawn) (record { placed = placed; shows = inl quiet })
        | inl (location, q) ↦
            let resolved = launch-resolve spawned p.egress url location q in
            rw (q, spawn)
              (record { placed = placed; shows = inr (rw (here, resolved, shown_at) refl) })
      ]

  -- A step keeps its place, and what is next is the entry of the new position.
  step-placed :
      (navigation : NavigationCommand) (p : Pipeline)
      → (p.position ≡ 0) ⊎ (p.position < length p.history)
      → let (next, moved) = step setup navigation p in
        ((moved.position ≡ 0) ⊎ (moved.position < length moved.history))
        × ((next ≡ none) ⊎ (next ≡ get_elem? moved.history moved.position))
  unfolding step
  step-placed (navigate url) p h =
      let kept = take (p.position + 1) p.history in
      let grown = length-last kept url in
      let last : length (kept ++ url ∷ []) - 1 ≡ length kept = omega (arith, grown) in
      (inr (omega (arith, grown)), inr (rw last (rw (get_elem-last kept url) refl)))
  step-placed back p h = ground (arith, h)
  step-placed forward p h = ground (arith, h)
  step-placed reload p h = (h, inr refl)
  step-placed NavigationCommand.stop p h = (h, inl refl)

  -- Where nothing is next, nothing has changed, but by a stop.
  step-none :
      (navigation : NavigationCommand) (p : Pipeline)
      → (p.position ≡ 0) ⊎ (p.position < length p.history)
      → (step setup navigation p).0 ≡ none
      → ((step setup navigation p).1 ≡ p) ⊎ ((step setup navigation p).1 ≡ halt setup p)
  unfolding step
  step-none (navigate url) p h e = cc
  step-none back p h e = ground (arith, h, get_elem-in p.history (p.position - 1))
  step-none forward p h e = ground (arith, h, get_elem-in p.history (p.position + 1))
  step-none reload p h e = inl refl
  step-none NavigationCommand.stop p h e = inr refl

  go-IsPlaced :
      (spawned : Fallible (Unit {0})) (navigation : NavigationCommand) (p : Pipeline)
      → IsPlaced setup p
      → IsPlaced setup (apply setup spawned (go navigation) p).1
  unfolding apply
  go-IsPlaced spawned navigation p h =
      let moved = (step setup navigation p).1 in
      let (placed, here) = step-placed navigation p h.placed in
      elim (Option-cases (step setup navigation p).0) [
        | inl q ↦
            rw (q, apply)
              (elim (step-none navigation p h.placed q) [
                | inl same ↦ rw same h
                | inr halted ↦ rw halted (record { placed = h.placed; shows = inl refl })
              ])
        | inr (url, q) ↦
            rw (q, apply)
              (spawn-IsPlaced spawned url (halt setup moved) placed refl (ground (arith, here, q)))
      ]

  apply-IsPlaced :
      (spawned : Fallible (Unit {0})) (command : BrowserCommand) (p : Pipeline)
      → IsPlaced setup p
      → IsPlaced setup (apply setup spawned command p).1
  unfolding apply
  apply-IsPlaced spawned (go navigation) p h = go-IsPlaced spawned navigation p h
  apply-IsPlaced spawned stop p h = record { placed = h.placed; shows = inl refl }
  apply-IsPlaced spawned (start session_id url profile egress) p h =
      spawn-IsPlaced spawned url _ (inl refl) refl refl

  run-IsPlaced :
      (commands : List (Fallible (Unit {0}) × BrowserCommand)) (p : Pipeline)
      → IsPlaced setup p
      → IsPlaced setup (run setup commands p)
  unfolding run
  run-IsPlaced [] p h = h
  run-IsPlaced ((spawned, command) ∷ rest) p h =
      run-IsPlaced rest (apply setup spawned command p).1 (apply-IsPlaced spawned command p h)

  -- Whatever commands the helper gets, and whichever of its launches fail: the position is one of
  -- the history, or 0, and a process that runs was launched at the entry of the position, resolved.
  pub run-fresh-IsPlaced :
      (commands : List (Fallible (Unit {0}) × BrowserCommand))
      → IsPlaced setup (run setup commands fresh)
  run-fresh-IsPlaced commands =
      run-IsPlaced commands fresh (record { placed = inl refl; shows = inl refl })
