-- ===== src/Startup/Ready.antt =====
-- About run of cmd/ingest/main.go: what a process that starts has.
use seestorm_ingest.Base.{
  Sum-cases, ℕ, List-cases, ◌≡◌, ◌≢◌, refl, ap, sym, ◌∙◌, ◌⊎◌, inl, inr, Bool, true, false, Option,
  none, some, List, [], ◌∷◌, arith, Option-cases, Bool-cases, subst,
}
use seestorm_ingest.Base.Bytes.{Bytes, lit, bytes_eq_iff}
use seestorm_ingest.Base.Int.{ℤ}
use seestorm_ingest.Strings.{trim_space}
use seestorm_ingest.Areas.{parse_areas, require_explicit_mode_on_fly}
use seestorm_ingest.Health.{required_feeds}
use seestorm_ingest.Poller.Mode.{parse_mode, should_ingest, should_publish, parse_mode-role}
use seestorm_ingest.Startup.{
  StartError, R2Config, Startup, Environment, new_r2, r2_of, assemble, with_areas, configure,
}

-- Either nothing is set, or every field is.
abbrev pub Complete : Option R2Config → Type 0
Complete none = Unit
Complete (some c) =
    (c.account_id ≢ []) × (c.access_key_id ≢ []) × (c.secret_access_key ≢ []) × (c.bucket ≢ [])

pub record Ready (env : Environment) (s : Startup) : Type 0 where
  pub database : s.database_url ≢ []
  pub areas : (s.areas ≡ parse_areas (env (lit "NWS_AREA"))) × (s.areas ≢ [])
  pub runs : (should_ingest s.mode ≡ true) ⊎ (should_publish s.mode ≡ true)
  pub watched : s.feeds ≢ []
  pub explicit : env (lit "FLY_APP_NAME") ≢ [] → trim_space (env (lit "MODE")) ≢ []
  pub r2 : Complete s.r2
  pub idle : should_publish s.mode ≡ false → s.r2 ≡ none

new_r2-Complete : (cfg : R2Config) (r : Option R2Config) → new_r2 cfg ≡ inr r → Complete r
unfolding new_r2
new_r2-Complete cfg none h = tt
new_r2-Complete cfg (some c) h =
    let a = bytes_eq_iff cfg.account_id [] in
    let k = bytes_eq_iff cfg.access_key_id [] in
    let s = bytes_eq_iff cfg.secret_access_key [] in
    let b = bytes_eq_iff cfg.bucket [] in
    (
      λ e. ground (arith, a, k, s, b, h, e),
      λ e. ground (arith, a, k, s, b, h, e),
      λ e. ground (arith, a, k, s, b, h, e),
      λ e. ground (arith, a, k, s, b, h, e),
    )

none_of :
    (r : Option R2Config) → ◌≡◌ {A = StartError ⊎ Option R2Config} (inr none) (inr r) → none ≡ r
none_of r h = cc h

r2_named :
    (env : Environment) (c : ℕ) (s : Bytes)
    → env (lit "R2_ACCOUNT_ID") ≡ c ∷ s
    → r2_of true env
      ≡ new_r2 (record {
        account_id = c ∷ s;
        access_key_id = env (lit "R2_ACCESS_KEY_ID");
        secret_access_key = env (lit "R2_SECRET_ACCESS_KEY");
        bucket = env (lit "R2_BUCKET_NAME");
      })
unfolding r2_of
r2_named env c s n = rw (n, r2_of) refl

r2_of-Complete :
    (b : Bool) (env : Environment) (r : Option R2Config)
    → r2_of b env ≡ inr r
    → Complete r × (b ≡ false → r ≡ none)
unfolding r2_of
r2_of-Complete false env none h = (tt, λ e. refl)
r2_of-Complete false env (some c) h = absurd (ground arith)
r2_of-Complete true env r h = elim (List-cases (env (lit "R2_ACCOUNT_ID"))) [
  | inl n ↦ (subst Complete (none_of r (ground (arith, n))) tt, λ e. absurd (ground arith))
  | inr (c, s, n) ↦ (new_r2-Complete _ r (sym (r2_named env c s n) ∙ h), λ e. absurd (ground arith))
]

parse_mode-runs :
    (raw : Bytes) (m : Bytes)
    → parse_mode raw ≡ some m
    → (should_ingest m ≡ true) ⊎ (should_publish m ≡ true)
parse_mode-runs raw m h = elim (parse_mode-role raw m h) [
  | inl (w, e) ↦ inl (ap (λ p. p.0) e)
  | inr (inl (w, e)) ↦ inl (ap (λ p. p.0) e)
  | inr (inr (w, e)) ↦ inr (ap (λ p. p.1) e)
]

required_feeds-runs : (i p : Bool) → (i ≡ true) ⊎ (p ≡ true) → required_feeds i p ≢ []
unfolding required_feeds
required_feeds-runs true p h = λ e. cc e
required_feeds-runs false true h = λ e. cc e
required_feeds-runs false false h = absurd (ground arith)

require_explicit_mode_on_fly-explicit :
    (app raw : Bytes)
    → require_explicit_mode_on_fly app raw ≡ false
    → app ≢ []
    → trim_space raw ≢ []
unfolding require_explicit_mode_on_fly
require_explicit_mode_on_fly-explicit app raw h k e =
    ground (arith, bytes_eq_iff app [], bytes_eq_iff (trim_space raw) [], h, k, e)

-- What the last steps of a start show, before the parts are put together.
Starts : (Bytes → Option ℤ) → Environment → Bytes → List Bytes → Startup → Type 0
Starts parse_duration env url areas s =
    (mode : Bytes) × (r2 : Option R2Config) × (require_explicit_mode_on_fly
        (env (lit "FLY_APP_NAME")) (env (lit "MODE"))
      ≡ false)
    × (parse_mode (env (lit "MODE")) ≡ some mode)
    × (r2_of (should_publish mode) env ≡ inr r2)
    × (s ≡ assemble parse_duration env url areas mode r2)

module _ (parse_duration : Bytes → Option ℤ) where
  with_areas-Starts :
      (env : Environment) (url : Bytes) (areas : List Bytes) (s : Startup)
      → with_areas parse_duration env url areas ≡ inr s
      → Starts parse_duration env url areas s
  unfolding with_areas Starts
  with_areas-Starts env url areas s h =
      elim (Bool-cases
        (require_explicit_mode_on_fly (env (lit "FLY_APP_NAME")) (env (lit "MODE")))) [
          | inl x ↦ absurd (ground (arith, x))
          | inr x ↦ elim (Option-cases (parse_mode (env (lit "MODE")))) [
            | inl y ↦ absurd (ground (arith, x, y))
            | inr (mode, y) ↦ elim (Sum-cases (r2_of (should_publish mode) env)) [
              | inl (e, z) ↦ absurd (ground (arith, x, y, z))
              | inr (r2, z) ↦ (mode, r2, x, y, z, ground (arith, x, y, z))
            ]
          ]
        ]

  with_areas-Ready :
      (env : Environment) (c : ℕ) (url : Bytes) (a : Bytes) (areas : List Bytes) (s : Startup)
      → parse_areas (env (lit "NWS_AREA")) ≡ a ∷ areas
      → Starts parse_duration env (c ∷ url) (a ∷ areas) s
      → Ready env s
  unfolding Starts assemble
  with_areas-Ready env c url a areas s n (mode, r2, x, y, z, e) =
      let runs = parse_mode-runs (env (lit "MODE")) mode y in
      let built = r2_of-Complete (should_publish mode) env r2 z in
      subst (Ready env) (sym e) (record {
        database = λ k. cc k;
        areas = (sym n, λ k. cc k);
        runs = runs;
        watched = required_feeds-runs (should_ingest mode) (should_publish mode) runs;
        explicit =
            require_explicit_mode_on_fly-explicit (env (lit "FLY_APP_NAME")) (env (lit "MODE")) x;
        r2 = built.0;
        idle = built.1;
      })

  -- A process that gets past its configuration has a database address; the areas that NWS_AREA gives,
  -- and at least one; a role that runs at least one phase, and so a feed that /healthz watches; on Fly,
  -- where FLY_APP_NAME is set, a role that was given and not assumed; and an R2 configuration that is
  -- either absent or complete, absent where the role does not publish.
  pub configure-Ready :
      (env : Environment) (s : Startup) → configure parse_duration env ≡ inr s → Ready env s
  unfolding configure
  configure-Ready env s h = elim (List-cases (env (lit "DATABASE_URL"))) [
    | inl n ↦ absurd (ground (arith, n))
    | inr (c, url, n) ↦ elim (List-cases (parse_areas (env (lit "NWS_AREA")))) [
      | inl m ↦ absurd (ground (arith, n, m))
      | inr (a, areas, m) ↦
          with_areas-Ready env c url a areas s m
            (with_areas-Starts env (c ∷ url) (a ∷ areas) s (ground (arith, n, m)))
    ]
  ]
