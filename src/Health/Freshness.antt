-- ===== src/Health/Freshness.antt =====
-- About the handler of internal/health/handler.go: when it reports that all is well.
use seestorm_ingest.Base.{◌≡◌, refl, ◌⊎◌, ◌↔◌, Option, none, some, List, [], ◌∷◌, arith, All}
use seestorm_ingest.Base.Int.{ℤ, ◌≤ℤ◌, ◌-ℤ◌}
use seestorm_ingest.Base.{inl, inr}
use seestorm_ingest.Health.{
  StaleFeed, respond, Feed, Registry, last_success, stale_feeds, health_handler,
}

abbrev pub FreshAt : ℤ → Option ℤ → Type 0
FreshAt cutoff none = ⊥
FreshAt cutoff (some t) = cutoff ≤ℤ t

abbrev pub Fresh : Option Registry → ℤ → Feed → Type 0
Fresh reg cutoff f = FreshAt cutoff (last_success reg f)

stale_feeds-nil :
    (reg : Option Registry) (cutoff : ℤ) (feeds : List Feed)
    → All (Fresh reg cutoff) feeds
    → stale_feeds reg cutoff feeds ≡ []
unfolding stale_feeds
stale_feeds-nil reg cutoff [] h = refl
stale_feeds-nil reg cutoff (f ∷ feeds) h =
    let head = h.0 in let ih = stale_feeds-nil reg cutoff feeds h.1 in ground arith

nil-Fresh :
    (reg : Option Registry) (cutoff : ℤ) (feeds : List Feed)
    → stale_feeds reg cutoff feeds ≡ []
    → All (Fresh reg cutoff) feeds
unfolding stale_feeds
nil-Fresh reg cutoff [] h = tt
nil-Fresh reg cutoff (f ∷ feeds) h = (ground arith, nil-Fresh reg cutoff feeds (ground arith))

respond-ok_iff : (xs : List StaleFeed) → ((respond xs).code ≡ 200) ↔ (xs ≡ [])
respond-ok_iff [] = (λ h. refl, λ h. refl)
respond-ok_iff (x ∷ xs) = ground arith

respond-code : (xs : List StaleFeed) → ((respond xs).code ≡ 200) ⊎ ((respond xs).code ≡ 503)
respond-code [] = inl refl
respond-code (x ∷ xs) = inr refl

-- The handler answers 200 exactly when each required feed has a success that is not older than
-- the maximal age; otherwise its code is 503.
pub health_handler-ok_iff :
    (reg : Option Registry) (feeds : List Feed) (max_age now : ℤ)
    → let r = health_handler reg feeds max_age now in
      ((r.code ≡ 200) ↔ All (Fresh reg (now -ℤ max_age)) feeds) × ((r.code ≡ 200) ⊎ (r.code ≡ 503))
unfolding health_handler
health_handler-ok_iff reg feeds max_age now =
    let stale = stale_feeds reg (now -ℤ max_age) feeds in
    let ok = respond-ok_iff stale in
    (
      (
        λ h. nil-Fresh reg (now -ℤ max_age) feeds (ok.0 h),
        λ h. ok.1 (stale_feeds-nil reg (now -ℤ max_age) feeds h),
      ),
      respond-code stale,
    )
