-- ===== src/Poller/Healthz.antt =====
-- About internal/poller with internal/health: what the cycles of a process tell /healthz. The news of a
-- step are, for each feed, the time of the success that the step records there, if it records one.
pub mod Phases
pub mod Cycles
pub mod Examples
use seestorm_ingest.Base.{
  ◌≡◌, refl, ◌∙◌, ap, Bool, true, false, Option, none, some, List, [], ◌∷◌, if◌then◌else◌, arith,
  Bool-cases,
}
use seestorm_ingest.Base.Bytes.{Bytes, bytes_eq}
use seestorm_ingest.Base.Int.{ℤ}
use seestorm_ingest.Base.Maps.{Map, put}
use seestorm_ingest.Health.{
  Feed, Registry, record_success, record_publish_put_failure, reset_publish_failures,
}

abbrev pub News : Type 0
News = Feed → Option ℤ

-- The later news, or else the earlier.
abbrev pub or_before : Option ℤ → Option ℤ → Option ℤ
or_before (some t) o = some t
or_before none o = o

abbrev pub quiet : News
quiet f = none

abbrev pub at_feed : Feed → Option ℤ → News
at_feed feed o f = if bytes_eq f feed then o else none

-- The step leaves a registry whose times are these news over those of `r`.
abbrev pub Tells : News → Registry → Option Registry → Type 0
Tells news r after =
    (r' : Registry) × (after ≡ some r') × ((f : Feed) → r'.last f ≡ or_before (news f) (r.last f))

pub Tells-refl : (r : Registry) → Tells quiet r (some r)
Tells-refl r = (r, refl, λ f. refl)

-- One step after another.
abbrev pub then_news : News → News → News
then_news first second f = or_before (second f) (first f)

pub or_before-none : (x : Option ℤ) → or_before x none ≡ x
or_before-none (some t) = refl
or_before-none none = refl

or_before_assoc : (x y z : Option ℤ) → or_before x (or_before y z) ≡ or_before (or_before x y) z
or_before_assoc (some t) y z = refl
or_before_assoc none y z = refl

pub Tells-trans :
    (m n : News) (r : Registry) (before after : Option Registry)
    → Tells m r before
    → ((q : Registry) → before ≡ some q → Tells n q after)
    → Tells (then_news m n) r after
Tells-trans m n r before after (q, e, h) k =
    let (q', e', h') = k q e in
    (q', e', λ f. h' f ∙ ap (or_before (n f)) (h f) ∙ or_before_assoc (n f) (m f) (r.last f))

-- A step before that recorded nothing does not count.
pub Tells-quiet :
    (n : News) (r : Registry) (after : Option Registry)
    → Tells (then_news quiet n) r after
    → Tells n r after
Tells-quiet n r after (q, e, h) =
    (q, e, λ f. h f ∙ ap (λ x. or_before x (r.last f)) (or_before-none (n f)))

pub record_success-Tells :
    (feed : Feed) (t : ℤ) (r : Registry)
    → Tells (at_feed feed (some t)) r (record_success (some r) feed t)
unfolding record_success put
record_success-Tells feed t r = (_, refl, λ f. ground arith)

-- What records nothing.
pub at_feed-quiet : (feed : Feed) (r : Registry) → Tells (at_feed feed none) r (some r)
at_feed-quiet feed r = (r, refl, λ f. ground arith)

pub record_publish_put_failure-Tells :
    (state : Bytes) (r : Registry) → Tells quiet r (record_publish_put_failure (some r) state)
unfolding record_publish_put_failure
record_publish_put_failure-Tells state r = (_, refl, λ f. refl)

pub reset_publish_failures-Tells : (r : Registry) → Tells quiet r (reset_publish_failures (some r))
unfolding reset_publish_failures
reset_publish_failures-Tells r = (_, refl, λ f. refl)
