-- ===== src/Regexp/Exact.antt =====
-- Patterns of fixed width: what such an item takes of a text that has it in front.
use seestorm_ingest.Base.{
  ℕ, ◌≡◌, refl, ap, ◌∙◌, sym, Bool, true, Option, none, some, List, [], ◌∷◌, ◌++◌, length, arith,
  All,
}
use seestorm_ingest.Base.Bytes.{Bytes}
use seestorm_ingest.Strings.{cut_prefix}
use mathlib.Core.List.{reverse, reverse-cons, append-nil, append_assoc}
use seestorm_ingest.Regexp.{Item, text, rep, put_piece, last_or, Rest, stop, run, match_here}

cut_prefix-append : (t s : Bytes) → cut_prefix t (t ++ s) ≡ some s
unfolding cut_prefix
cut_prefix-append [] s = refl
cut_prefix-append (c ∷ t) s = ground (arith, cut_prefix-append t s)

pub match_here-text :
    (t : Bytes) (items : List Item) (prev : Option ℕ) (s : Bytes)
    → match_here (text t ∷ items) prev (t ++ s) ≡ put_piece t (match_here items (last_or prev t) s)
unfolding match_here
match_here-text t items prev s = rw (cut_prefix-append t s, match_here) refl

or_none : (o : Option (List Bytes)) → elim o [ some r ↦ some r | none ↦ none ] ≡ o
or_none none = refl
or_none (some r) = refl

run-exact :
    (p : ℕ → Bool) (next : Rest) (f : Bytes) (prev : Option ℕ) (taken s : Bytes)
    → All (λ c. p c ≡ true) f
    → run true p next (length f) (some (length f)) prev taken (f ++ s)
      ≡ put_piece (reverse taken ++ f) (next (last_or prev f) s)
unfolding run stop
run-exact p next [] prev taken [] h =
    ap (λ (t : Bytes). put_piece t (next prev [])) (sym (append-nil (reverse taken)))
run-exact p next [] prev taken (c ∷ s) h = ground (arith, append-nil (reverse taken))
run-exact p next (c ∷ f) prev taken s h =
    let ih = run-exact p next f (some c) (c ∷ taken) s h.1 in
    let e : reverse (c ∷ taken) ++ f ≡ reverse taken ++ (c ∷ f) =
      ap (λ (t : Bytes). t ++ f) (reverse-cons c taken) ∙ append_assoc (reverse taken) (c ∷ []) f in
    ground (arith, ih, e, h.0)

pub match_here-exact :
    (p : ℕ → Bool) (f : Bytes) (items : List Item) (prev : Option ℕ) (s : Bytes)
    → All (λ c. p c ≡ true) f
    → match_here (rep true (length f) (some (length f)) p ∷ items) prev (f ++ s)
      ≡ put_piece f (match_here items (last_or prev f) s)
unfolding match_here
match_here-exact p f items prev s h = run-exact p (match_here items) f prev [] s h
