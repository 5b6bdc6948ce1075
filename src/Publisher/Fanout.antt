-- ===== src/Publisher/Fanout.antt =====
-- About Multi of internal/publisher/publisher.go, over destinations that each have a store of their own.

use mathlib.Core.Path.{fun_ext}
use seestorm_ingest.Base.{
  sym, subst, ◌≢◌, suc, ◌+◌, ◌<◌, ◌∙◌, ap, refl, ◌≡◌, ℕ, zero, suc, ◌==◌, Option, none, some, List,
  [], ◌∷◌, if◌then◌else◌, arith,
}
use seestorm_ingest.Store.Errors.{Error}
use seestorm_ingest.Publisher.{Publisher, keep_first, forward, multi, Snapshot, StateSnapshot}

abbrev pub Stores : Type 0 → Type 0
Stores S = ℕ → S

keep_first-failure :
    (e r x : Option Error)
    → keep_first (keep_first e r) x ≡ keep_first e (elim r [ some y ↦ some y | none ↦ x ])
keep_first-failure none none x = refl
keep_first-failure none (some y) x = refl
keep_first-failure (some f) r x = refl

module _ {S : Type 0} where
  abbrev update : ℕ → S → Stores S → Stores S
  update i v w j = if j == i then v else w j

  -- A method, on the store at one place.
  abbrev on_place : ℕ → (S → S × Option Error) → Stores S → Stores S × Option Error
  on_place i call w = let r = call (w i) in (update i r.0 w, r.1)

  abbrev at_place : ℕ → Publisher S → Publisher (Stores S)
  at_place i p = record {
    publish = λ m. on_place i (p.publish m);
    publish_state = λ m. on_place i (p.publish_state m);
  }

  -- The publishers, each on its own place, from `i` on.
  abbrev pub placed : ℕ → List (Publisher S) → List (Publisher (Stores S))
  placed i [] = []
  placed i (p ∷ ps) = at_place i p ∷ placed (suc i) ps

  -- What the publisher at the place does to its store, called alone; other stores stay.
  abbrev pub store_after : (Publisher S → S → S × Option Error) → List (Publisher S) → ℕ → S → S
  store_after call [] j s = s
  store_after call (p ∷ ps) zero s = (call p s).0
  store_after call (p ∷ ps) (suc j) s = store_after call ps j s

  -- The error of the first publisher that fails, each called alone.
  abbrev pub first_failure :
      (Publisher S → S → S × Option Error) → List (Publisher S) → Stores S → Option Error
  first_failure call [] w = none
  first_failure call (p ∷ ps) w = elim (call p (w 0)).1 [
    | some e ↦ some e
    | none ↦ first_failure call ps (λ j. w (suc j))
  ]

  update-same : (i : ℕ) (v : S) (w : Stores S) → update i v w i ≡ v
  update-same i v w = ground arith

  update-other : (i j : ℕ) (v : S) (w : Stores S) → j ≢ i → update i v w j ≡ w j
  update-other i j v w h = ground (arith, h)

  module _ (call : Publisher S → S → S × Option Error)
      (method : Publisher (Stores S) → Stores S → Stores S × Option Error)
      (agree : (i : ℕ) (p : Publisher S) (w : Stores S)
        → method (at_place i p) w ≡ on_place i (call p) w) where
    -- What the loop leaves from place `i` on.
    abbrev Forwarded :
        ℕ → List (Publisher S) → Stores S → Option Error → Stores S × Option Error → Type 0
    Forwarded i ps w e r =
        ((k : ℕ) → k < i → r.0 k ≡ w k)
        × ((j : ℕ) → r.0 (i + j) ≡ store_after call ps j (w (i + j)))
        × (r.1 ≡ keep_first e (first_failure call ps (λ j. w (i + j))))

    Forwarded-own :
        (i : ℕ) (p : Publisher S) (ps : List (Publisher S)) (w : Stores S)
        (r : Stores S × Option Error)
        → let w' = update i (call p (w i)).0 w in
          ((k : ℕ) → k < suc i → r.0 k ≡ w' k)
          → ((j : ℕ) → r.0 (suc i + j) ≡ store_after call ps j (w' (suc i + j)))
          → (j : ℕ) → r.0 (i + j) ≡ store_after call (p ∷ ps) j (w (i + j))
    Forwarded-own i p ps w r below own zero =
        let here : i + 0 ≡ i = omega arith in
        let c = call p (w i) in
        ap r.0 here
        ∙ below i (omega arith)
        ∙ update-same i c.0 w
        ∙ sym (ap (λ k. (call p (w k)).0) here)
    Forwarded-own i p ps w r below own (suc j) =
        let there : i + suc j ≡ suc i + j = omega arith in
        let c = call p (w i) in
        ap r.0 there
        ∙ own j
        ∙ ap (store_after call ps j)
            (update-other i (suc i + j) c.0 w (omega arith) ∙ sym (ap w there))

    Forwarded-cons :
        (i : ℕ) (p : Publisher S) (ps : List (Publisher S)) (w : Stores S) (e : Option Error)
        (r : Stores S × Option Error)
        → let c = call p (w i) in
          Forwarded (suc i) ps (update i c.0 w) (keep_first e c.1) r → Forwarded i (p ∷ ps) w e r
    Forwarded-cons i p ps w e r (below, own, error) =
        let c = call p (w i) in
        let w' : Stores S = update i c.0 w in
        let here : i + 0 ≡ i = omega arith in
        let shift : (j : ℕ) → w' (suc i + j) ≡ w (i + suc j) =
          λ j. update-other i (suc i + j) c.0 w (omega arith) ∙ ap w (omega arith) in
        (
          λ k h. below k (omega (arith, h)) ∙ update-other i k c.0 w (omega (arith, h)),
          Forwarded-own i p ps w r below own,
          error
              ∙ ap (λ v. keep_first (keep_first e c.1) (first_failure call ps v)) (fun_ext shift)
              ∙ keep_first-failure e c.1 _
              ∙ sym (
                  ap
                    (λ k. keep_first e (elim (call p (w k)).1 [
                      | some y ↦ some y
                      | none ↦ first_failure call ps (λ j. w (i + suc j))
                    ]))
                    here),
        )

    forward-placed :
        (i : ℕ) (ps : List (Publisher S)) (w : Stores S) (e : Option Error)
        → Forwarded i ps w e (forward method (placed i ps) w e)
    unfolding forward
    forward-placed i [] w none = ((λ k h. refl), (λ j. refl), refl)
    forward-placed i [] w (some e) = ((λ k h. refl), (λ j. refl), refl)
    forward-placed i (p ∷ ps) w e =
        rw (agree i p w, forward)
          (Forwarded-cons i p ps w e _ (
            forward-placed (suc i) ps (update i (call p (w i)).0 w)
              (keep_first e (call p (w i)).1)))

  from_zero :
      (r w : Stores S) (f : ℕ → S → S)
      → ((j : ℕ) → r (0 + j) ≡ f j (w (0 + j)))
      → (j : ℕ) → r j ≡ f j (w j)
  from_zero r w f h j = let e : 0 + j ≡ j = omega arith in subst (λ k. r k ≡ f j (w k)) e (h j)

  -- Publishers that each have a store of their own, in a Multi: whatever fails, every one of them is
  -- called, and its store is what it makes of it when it is called alone; a store that is no publisher's
  -- stays. The error is that of the first publisher that fails. This holds for both methods.
  pub multi-placed :
      (ps : List (Publisher S)) (m : Snapshot) (s : StateSnapshot) (w : Stores S)
      → let r = (multi (placed 0 ps)).publish m w in
        let q = (multi (placed 0 ps)).publish_state s w in
        ((j : ℕ) → r.0 j ≡ store_after (λ p. p.publish m) ps j (w j))
        × (r.1 ≡ first_failure (λ p. p.publish m) ps w)
        × ((j : ℕ) → q.0 j ≡ store_after (λ p. p.publish_state s) ps j (w j))
        × (q.1 ≡ first_failure (λ p. p.publish_state s) ps w)
  unfolding multi
  multi-placed ps m s w =
      let (_, stores, error) =
        forward-placed (λ p. p.publish m) (λ p. p.publish m) (λ i p v. refl) 0 ps w none in
      let (_, stores', error') =
        forward-placed (λ p. p.publish_state s) (λ p. p.publish_state s) (λ i p v. refl) 0 ps w
          none in
      let zero_add : (λ (j : ℕ). w (0 + j)) ≡ w = fun_ext λ j. ap w (omega arith) in
      (
        from_zero _ w (store_after (λ p. p.publish m) ps) stores,
        error ∙ ap (first_failure (λ p. p.publish m) ps) zero_add,
        from_zero _ w (store_after (λ p. p.publish_state s) ps) stores',
        error' ∙ ap (first_failure (λ p. p.publish_state s) ps) zero_add,
      )
