-- ===== src/Store/Collapse/Reference.antt =====
-- About collapseByEvent of internal/store/collapse.go: a plain recursion to compare it with, which looks
-- through the output for a row of the same key.
use seestorm_ingest.Base.{
  ℕ, zero, suc, ◌≡◌, refl, sym, ◌∙◌, ap, Bool, true, false, not, ◌&&◌, Option, none, some, List, [],
  ◌∷◌, ◌++◌, length, arith, if◌then◌else◌, Option-cases, Bool-cases, ◌↔◌, ◌≢◌, inl, inr,
}
use seestorm_ingest.Base.Bytes.{bytes_eq, bytes_eq_iff}
use seestorm_ingest.Store.Active.{ActiveAlert}
use seestorm_ingest.Store.Collapse.{
  Key, key_of, key_eq, Winners, winner, Collapsed, later_issuance, challenge, collapse_step,
  collapse_from, collapse_by_event,
}

-- The row goes to the place of the row with its key, or to the end; a row without an event to the end.
abbrev pub absorb : ActiveAlert → List ActiveAlert → List ActiveAlert
absorb a [] = a ∷ []
absorb a (b ∷ out) =
    if not (bytes_eq a.event_id []) && key_eq (key_of b) (key_of a)
    then (if later_issuance a b then a else b) ∷ out
    else b ∷ absorb a out

abbrev pub absorb_all : List ActiveAlert → List ActiveAlert → List ActiveAlert
absorb_all out [] = out
absorb_all out (a ∷ rest) = absorb_all (absorb a out) rest

abbrev next : Option ℕ → Option ℕ
next none = none
next (some i) = some (suc i)

-- The place of the first row with the key.
abbrev pub place : Key → List ActiveAlert → Option ℕ
place k [] = none
place k (b ∷ out) = if key_eq (key_of b) k then some 0 else next (place k out)

pub key_eq_iff : (k l : Key) → (key_eq k l ≡ true) ↔ (k ≡ l)
unfolding key_eq
key_eq_iff k l = ground (
  arith,
  bytes_eq_iff k.event_id l.event_id,
  bytes_eq_iff k.event_type l.event_type,
  bytes_eq_iff k.area_desc l.area_desc,
)

module _ (a : ActiveAlert) (vtec : bytes_eq a.event_id [] ≡ false) where
  challenge-place :
      (out : List ActiveAlert) (i : ℕ)
      → place (key_of a) out ≡ some i
      → challenge a i out ≡ absorb a out
  unfolding challenge
  challenge-place [] i e = ground arith
  challenge-place (b ∷ out) zero e = ground arith
  challenge-place (b ∷ out) (suc i) e = ground (arith, challenge-place out i)

  append-place :
      (out : List ActiveAlert) → place (key_of a) out ≡ none → out ++ a ∷ [] ≡ absorb a out
  append-place [] e = refl
  append-place (b ∷ out) e = ground (arith, append-place out)

append-plain :
    (a : ActiveAlert) (out : List ActiveAlert)
    → bytes_eq a.event_id [] ≡ true
    → out ++ a ∷ [] ≡ absorb a out
append-plain a [] e = refl
append-plain a (b ∷ out) e = ground (arith, append-plain a out)

-- What a later row adds to the places: only a key that had none gets one, at the end.
abbrev or_last : Option ℕ → Bool → ℕ → Option ℕ
or_last (some i) hit n = some i
or_last none true n = some n
or_last none false n = none

place-append :
    (k : Key) (a : ActiveAlert) (out : List ActiveAlert)
    → place k (out ++ a ∷ []) ≡ or_last (place k out) (key_eq (key_of a) k) (length out)
place-append k a [] = ground arith
place-append k a (b ∷ out) = ground (arith, place-append k a out)

key_of-later :
    (a b : ActiveAlert)
    → key_eq (key_of b) (key_of a) ≡ true
    → key_of (if later_issuance a b then a else b) ≡ key_of b
key_of-later a b e = ground (arith, key_eq_iff (key_of b) (key_of a))

place-absorb :
    (k : Key) (a : ActiveAlert) (out : List ActiveAlert)
    → bytes_eq a.event_id [] ≡ false
    → place (key_of a) out ≢ none
    → place k (absorb a out) ≡ place k out
place-absorb k a [] v e = absurd (e refl)
place-absorb k a (b ∷ out) v e = elim (Bool-cases (key_eq (key_of b) (key_of a))) [
  | inl hit ↦ rw (v, hit) (rw (key_of-later a b hit) refl)
  | inr miss ↦ rw (v, miss) (rw (place-absorb k a out v (λ n. e (rw (miss, n)))) refl)
]

place-append-plain :
    (k : Key) (a : ActiveAlert) (out : List ActiveAlert)
    → bytes_eq a.event_id [] ≡ true
    → bytes_eq k.event_id [] ≡ false
    → place k (out ++ a ∷ []) ≡ place k out
place-append-plain k a out plain v = ground (arith, place-append k a out, key_eq_iff (key_of a) k)

winner-new :
    (k : Key) (a : ActiveAlert) (w : Winners) (out : List ActiveAlert)
    → winner k w ≡ place k out
    → place (key_of a) out ≡ none
    → winner k ((key_of a, length out) ∷ w) ≡ place k (out ++ a ∷ [])
unfolding winner
winner-new k a w out h new = elim (Bool-cases (key_eq (key_of a) k)) [
  | inl hit ↦
      let same : place k out ≡ none = rw (← (key_eq_iff (key_of a) k).0 hit) new in
      rw (place-append k a out, hit, same) refl
  | inr miss ↦ ground (arith, place-append k a out)
]

-- The map of winners has the place of each key.
abbrev Agrees : Winners → List ActiveAlert → Type 0
Agrees w out = (k : Key) → bytes_eq k.event_id [] ≡ false → winner k w ≡ place k out

-- The rows of the loop are those of the recursion, and the map stays right.
record Follows (s : Collapsed) (a : ActiveAlert) (t : Collapsed) : Type 0 where
  out_lem : t.out ≡ absorb a s.out
  agrees : Agrees t.winners t.out

collapse_step-Follows :
    (s : Collapsed) (a : ActiveAlert) → Agrees s.winners s.out → Follows s a (collapse_step s a)
unfolding collapse_step
collapse_step-Follows s a h = elim (Bool-cases (bytes_eq a.event_id [])) [
  | inl plain ↦
      rw (plain, collapse_step)
        (record {
          out_lem = append-plain a s.out plain;
          agrees = λ k v. h k v ∙ sym (place-append-plain k a s.out plain v);
        })
  | inr vtec ↦ elim (Option-cases (place (key_of a) s.out)) [
    | inl new ↦
        rw (vtec, collapse_step, h (key_of a) vtec, new)
          (record {
            out_lem = append-place a vtec s.out new;
            agrees = λ k v. winner-new k a s.winners s.out (h k v) new;
          })
    | inr (i, at) ↦
        rw (vtec, collapse_step, h (key_of a) vtec, at)
          (record {
            out_lem = challenge-place a vtec s.out i at;
            agrees = λ k v.
                rw (challenge-place a vtec s.out i at)
                  (h k v ∙ sym (place-absorb k a s.out vtec (λ n. cc (at, n))));
          })
  ]
]

collapse_from-eq-absorb_all :
    (s : Collapsed) (alerts : List ActiveAlert)
    → Agrees s.winners s.out
    → (collapse_from s alerts).out ≡ absorb_all s.out alerts
unfolding collapse_from
collapse_from-eq-absorb_all s [] h = refl
collapse_from-eq-absorb_all s (a ∷ rest) h =
    let f = collapse_step-Follows s a h in
    collapse_from-eq-absorb_all (collapse_step s a) rest f.agrees
    ∙ ap (λ out. absorb_all out rest) f.out_lem

-- For every list of alerts the loop over the map of winners gives what the recursion gives that
-- absorbs one alert after another into the output, with no map.
pub collapse_by_event-eq-absorb_all :
    (alerts : List ActiveAlert) → collapse_by_event alerts ≡ absorb_all [] alerts
unfolding collapse_by_event winner
collapse_by_event-eq-absorb_all alerts =
    collapse_from-eq-absorb_all (record { winners = []; out = [] }) alerts (λ k v. refl)
