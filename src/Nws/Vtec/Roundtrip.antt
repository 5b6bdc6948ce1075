-- ===== src/Nws/Vtec/Roundtrip.antt =====
-- About ParseVTEC and EventID of internal/nws/vtec.go: a P-VTEC that is printed is read back.
use seestorm_ingest.Base.{
  ℕ, ◌≡◌, refl, ap, ◌∙◌, Bool, true, false, Option, none, some, List, [], ◌∷◌, ◌++◌, length, All,
  subst, sym, inl, inr, Option-cases,
}
use seestorm_ingest.Base.Bytes.{Bytes, lit}
use seestorm_ingest.Base.Maps.{Map}
use seestorm_ingest.Strings.{trim_space}
use seestorm_ingest.Regexp.{
  Item, rep, upper, digit, find_submatch, find_from, match_here, put_piece, last_or, first_some,
}
use seestorm_ingest.Regexp.Exact.{match_here-text, match_here-exact}
use seestorm_ingest.Nws.Products.{Vtec}
use seestorm_ingest.Nws.Vtec.{
  product_class, pvtec_re, vtec_of, parsed, vtec_from, parse_vtec, dot_text,
}

-- A code of this many bytes of a class.
pub record Code (n : ℕ) (p : ℕ → Bool) (f : Bytes) : Type 0 where
  pub width : length f ≡ n
  pub bytes : All (λ c. p c ≡ true) f

pub record IsVtec (v : Vtec) : Type 0 where
  pub product_class_ok : Code 1 product_class v.product_class
  pub action_ok : Code 3 upper v.action
  pub office_ok : Code 4 upper v.office
  pub phenomenon_ok : Code 2 upper v.phenomenon
  pub significance_ok : Code 1 upper v.significance
  pub etn_ok : Code 4 digit v.etn

abbrev pub dotted : Bytes → Bytes → Bytes
dotted f s = f ++ (lit "." ++ s)

-- The text of a P-VTEC, up to its times.
unfoldable pub print : Vtec → Bytes → Bytes
print v times =
    lit "/"
    ++ dotted v.product_class (
        dotted v.action
          (dotted v.office (dotted v.phenomenon (dotted v.significance (dotted v.etn times)))))

none-some : {A : Type 0} (a : A) → ◌≡◌ {A = Option A} none (some a) → ⊥
none-some a h = cc h

match_here_nil : (prev : Option ℕ) (s : Bytes) → match_here [] prev s ≡ some []
unfolding match_here
match_here_nil prev s = refl

match_here-dotted :
    (n : ℕ) (p : ℕ → Bool) (f : Bytes) (items : List Item) (prev : Option ℕ) (s : Bytes)
    (r : Option (List Bytes))
    → Code n p f
    → match_here items (some b'.') s ≡ r
    → match_here (rep true n (some n) p ∷ dot_text ∷ items) prev (dotted f s)
      ≡ put_piece f (put_piece (lit ".") r)
match_here-dotted n p f items prev s r h e =
    subst
      (λ (k : ℕ).
        match_here (rep true k (some k) p ∷ dot_text ∷ items) prev (dotted f s)
        ≡ put_piece f (put_piece (lit ".") r))
      h.width
      (match_here-exact p f (dot_text ∷ items) prev (lit "." ++ s) h.bytes
        ∙ ap (put_piece f)
            (match_here-text (lit ".") items (last_or prev f) s ∙ ap (put_piece (lit ".")) e))

match_here-print :
    (v : Vtec) (times : Bytes)
    → IsVtec v
    → vtec_of (match_here pvtec_re none (print v times)) ≡ some v
unfolding print
match_here-print v times h = ap vtec_of (
    match_here-text (lit "/") _ none _
    ∙ ap (put_piece (lit "/")) (
        match_here-dotted 1 product_class v.product_class _ _ _ _ h.product_class_ok (
          match_here-dotted 3 upper v.action _ _ _ _ h.action_ok (
            match_here-dotted 4 upper v.office _ _ _ _ h.office_ok (
              match_here-dotted 2 upper v.phenomenon _ _ _ _ h.phenomenon_ok (
                match_here-dotted 1 upper v.significance _ _ _ _ h.significance_ok
                  (match_here-dotted 4 digit v.etn _ _ _ _ h.etn_ok (match_here_nil _ times))))))))

find_at_once :
    (s : Bytes) (v : Vtec)
    → vtec_of (match_here pvtec_re none s) ≡ some v
    → vtec_of (find_submatch pvtec_re s) ≡ some v
unfolding find_submatch find_from
find_at_once [] v h = h
find_at_once (c ∷ s) v h = elim (Option-cases (match_here pvtec_re none (c ∷ s))) [
  | inl e ↦ absurd (none-some v (sym (ap vtec_of e) ∙ h))
  | inr (r, e) ↦
      subst
        (λ (o : Option (List Bytes)).
          vtec_of (first_some o (find_from pvtec_re (some c) s)) ≡ some v)
        (sym e) (sym (ap vtec_of e) ∙ h)
]

find_submatch-print :
    (v : Vtec) (times : Bytes)
    → IsVtec v
    → vtec_of (find_submatch pvtec_re (print v times)) ≡ some v
find_submatch-print v times h = find_at_once (print v times) v (match_here-print v times h)

abbrev pub Blank : Bytes → Type 0
Blank s = trim_space s ≡ []

vtec_from-text :
    (raw c : Bytes) (h : ℕ) (more : List Bytes) (saw : Bool) (v : Vtec)
    → trim_space raw ≡ h ∷ c
    → vtec_of (find_submatch pvtec_re (h ∷ c)) ≡ some v
    → vtec_from (raw ∷ more) saw ≡ parsed v
unfolding vtec_from
vtec_from-text raw c h more saw v e f = rw (e, vtec_from, f) refl

vtec_from-print :
    (v : Vtec) (times : Bytes) (blanks : List Bytes) (raw : Bytes) (more : List Bytes)
    → IsVtec v
    → All Blank blanks
    → trim_space raw ≡ print v times
    → vtec_from (blanks ++ (raw ∷ more)) false ≡ parsed v
unfolding vtec_from print
vtec_from-print v times [] raw more h b e =
    vtec_from-text raw _ _ more false v e (find_submatch-print v times h)
vtec_from-print v times (blank ∷ blanks) raw more h b e =
    rw (b.0, vtec_from) (vtec_from-print v times blanks raw more h b.1 e)

-- If the first value that is not blank is, without the space around it, the text of a P-VTEC with
-- anything after its event number, then ParseVTEC reads back the code that was printed, whatever values
-- follow.
pub parse_vtec-print :
    (v : Vtec) (times : Bytes) (params : Map (List Bytes)) (blanks : List Bytes) (raw : Bytes)
    (more : List Bytes)
    → IsVtec v
    → All Blank blanks
    → trim_space raw ≡ print v times
    → params (lit "VTEC") ≡ some (blanks ++ (raw ∷ more))
    → parse_vtec params ≡ parsed v
unfolding parse_vtec
parse_vtec-print v times params blanks raw more h b e k =
    rw (k, parse_vtec) (vtec_from-print v times blanks raw more h b e)
