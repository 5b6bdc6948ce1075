-- ===== src/Store/Collapse/Survivors.antt =====
-- About collapseByEvent of internal/store/collapse.go: which rows survive.
use mathlib.Core.List.{append-nil, append_assoc}
use seestorm_ingest.Base.{
  All-Mem, ◌≡◌, refl, Bool, true, false, none, List, [], ◌∷◌, ◌++◌, arith, All, keep_if, ◌⊎◌, inl,
  Mem, sym, ◌∙◌, ap,
}
use seestorm_ingest.Base.Bytes.{bytes_eq}
use seestorm_ingest.Store.Active.{ActiveAlert}
use seestorm_ingest.Store.Collapse.{Key, key_of, key_eq, later_issuance, collapse_by_event}
use seestorm_ingest.Store.Collapse.Order.{later_issuance_trans, later_issuance_irrefl}
use seestorm_ingest.Store.Collapse.Reference.{
  absorb, place, key_eq_iff, absorb_all, collapse_by_event-eq-absorb_all,
}

abbrev pub is_plain : ActiveAlert → Bool
is_plain a = bytes_eq a.event_id []

-- No two rows with an event share a key.
abbrev pub OnePerKey : List ActiveAlert → Type 0
OnePerKey [] = Unit {0}
OnePerKey (b ∷ out) = ((is_plain b ≡ true) ⊎ (place (key_of b) out ≡ none)) × OnePerKey out

-- Some row of the same key is no earlier issuance than `a`.
abbrev pub Covers : List ActiveAlert → ActiveAlert → Type 0
Covers [] a = ⊥
Covers (b ∷ out) a =
    ((key_eq (key_of b) (key_of a) ≡ true) × (later_issuance a b ≡ false)) ⊎ Covers out a

place-absorb_ne :
    (k : Key) (a : ActiveAlert) (out : List ActiveAlert)
    → key_eq (key_of a) k ≡ false
    → place k out ≡ none
    → place k (absorb a out) ≡ none
place-absorb_ne k a [] e n = ground arith
place-absorb_ne k a (b ∷ out) e n =
    ground (arith, place-absorb_ne k a out, key_eq_iff (key_of b) (key_of a))

absorb-OnePerKey :
    (a : ActiveAlert) (out : List ActiveAlert) → OnePerKey out → OnePerKey (absorb a out)
absorb-OnePerKey a [] h = ground arith
absorb-OnePerKey a (b ∷ out) h = ground (
  arith,
  absorb-OnePerKey a out,
  place-absorb_ne (key_of b) a out,
  key_eq_iff (key_of b) (key_of a),
  key_eq_iff (key_of a) (key_of b),
)

absorb-Covers_self : (a : ActiveAlert) (out : List ActiveAlert) → Covers (absorb a out) a
absorb-Covers_self a [] = inl ((key_eq_iff _ _).1 refl, later_issuance_irrefl a)
absorb-Covers_self a (b ∷ out) = ground (
  arith,
  absorb-Covers_self a out,
  key_eq_iff (key_of b) (key_of a),
  key_eq_iff (key_of a) (key_of a),
  later_issuance_irrefl a,
)

absorb-Covers :
    (a c : ActiveAlert) (out : List ActiveAlert) → Covers out c → Covers (absorb a out) c
absorb-Covers a c [] h = absurd h
absorb-Covers a c (b ∷ out) h = ground (
  arith,
  absorb-Covers a c out,
  key_eq_iff (key_of b) (key_of a),
  key_eq_iff (key_of b) (key_of c),
  key_eq_iff (key_of a) (key_of c),
  later_issuance_trans c a b,
  later_issuance_trans a c b,
)

keep_plain-absorb :
    (a : ActiveAlert) (out : List ActiveAlert)
    → keep_if is_plain (absorb a out) ≡ keep_if is_plain out ++ keep_if is_plain (a ∷ [])
keep_plain-absorb a [] = refl
keep_plain-absorb a (b ∷ out) = ground (
  arith,
  keep_plain-absorb a out,
  append-nil (keep_if is_plain out),
  key_eq_iff (key_of b) (key_of a),
)

absorb-All {ℓ} :
    (P : ActiveAlert → Type ℓ) (a : ActiveAlert) (out : List ActiveAlert)
    → P a
    → All P out
    → All P (absorb a out)
absorb-All P a [] p h = (p, tt)
absorb-All P a (b ∷ out) p h = ground (arith, absorb-All P a out)

absorb_all-OnePerKey :
    (out alerts : List ActiveAlert) → OnePerKey out → OnePerKey (absorb_all out alerts)
absorb_all-OnePerKey out [] h = h
absorb_all-OnePerKey out (a ∷ rest) h =
    absorb_all-OnePerKey (absorb a out) rest (absorb-OnePerKey a out h)

absorb_all-Covers :
    (c : ActiveAlert) (out alerts : List ActiveAlert)
    → Covers out c
    → Covers (absorb_all out alerts) c
absorb_all-Covers c out [] h = h
absorb_all-Covers c out (a ∷ rest) h =
    absorb_all-Covers c (absorb a out) rest (absorb-Covers a c out h)

absorb_all-All-Covers :
    (out alerts : List ActiveAlert) → All (Covers (absorb_all out alerts)) alerts
absorb_all-All-Covers out [] = tt
absorb_all-All-Covers out (a ∷ rest) = (
  absorb_all-Covers a (absorb a out) rest (absorb-Covers_self a out),
  absorb_all-All-Covers (absorb a out) rest,
)

keep_plain-absorb_all :
    (out alerts : List ActiveAlert)
    → keep_if is_plain (absorb_all out alerts) ≡ keep_if is_plain out ++ keep_if is_plain alerts
keep_plain-absorb_all out [] = sym (append-nil _)
keep_plain-absorb_all out (a ∷ rest) =
    keep_plain-absorb_all (absorb a out) rest
    ∙ ap (λ xs. xs ++ keep_if is_plain rest) (keep_plain-absorb a out)
    ∙ append_assoc (keep_if is_plain out) _ _
    ∙ ap (λ xs. keep_if is_plain out ++ xs) (keep_if-cons a rest)
  where
    keep_if-cons :
        (b : ActiveAlert) (xs : List ActiveAlert)
        → keep_if is_plain (b ∷ []) ++ keep_if is_plain xs ≡ keep_if is_plain (b ∷ xs)
    keep_if-cons b xs = ground arith

absorb_all-All {ℓ} :
    (P : ActiveAlert → Type ℓ) (out alerts : List ActiveAlert)
    → All P out
    → All P alerts
    → All P (absorb_all out alerts)
absorb_all-All P out [] h k = h
absorb_all-All P out (a ∷ rest) h k =
    absorb_all-All P (absorb a out) rest (absorb-All P a out k.0 h) k.1

-- In the collapsed list no two rows with a VTEC event share event, event type and area; every row of
-- it is a row of the input.
pub collapse_by_event-OnePerKey :
    (alerts : List ActiveAlert)
    → OnePerKey (collapse_by_event alerts)
      × All (λ (a : ActiveAlert). Mem a alerts) (collapse_by_event alerts)
collapse_by_event-OnePerKey alerts = rw (collapse_by_event-eq-absorb_all alerts) (
  absorb_all-OnePerKey [] alerts tt,
  absorb_all-All (λ (a : ActiveAlert). Mem a alerts) [] alerts tt (All-Mem alerts),
)

-- No alert is dropped without a successor: for every row of the input the collapsed list has a row of
-- the same event, event type and area that is at least as late an issuance.
pub collapse_by_event-Covers :
    (alerts : List ActiveAlert) → All (Covers (collapse_by_event alerts)) alerts
collapse_by_event-Covers alerts =
    rw (collapse_by_event-eq-absorb_all alerts) (absorb_all-All-Covers [] alerts)

-- The rows without a VTEC event pass through untouched, in their order.
pub keep_plain-collapse_by_event :
    (alerts : List ActiveAlert)
    → keep_if is_plain (collapse_by_event alerts) ≡ keep_if is_plain alerts
keep_plain-collapse_by_event alerts =
    rw (collapse_by_event-eq-absorb_all alerts) (keep_plain-absorb_all [] alerts)
