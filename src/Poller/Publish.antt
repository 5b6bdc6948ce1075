-- ===== src/Poller/Publish.antt =====
-- internal/poller/poller.go: publishSnapshot, the fan-out over the states, and the retry of a put. The
-- goroutines of the fan-out put different keys and count under different states; they are run one
-- after another here, in any order. `W` is what the destinations hold.
pub mod Puts
pub mod Files
pub mod Examples
use seestorm_ingest.Base.{
  ℕ, zero, suc, Bool, true, false, Option, none, some, List, [], ◌∷◌, keep_if, ◌+◌, ◌==◌,
  if◌then◌else◌, ◌⊎◌, inl, inr,
}
use seestorm_ingest.Base.Bytes.{Bytes, contains}
use seestorm_ingest.Base.Int.{ℤ}
use seestorm_ingest.Duration.{publish_put_max_retries}
use seestorm_ingest.Store.Errors.{Error}
use seestorm_ingest.Store.Active.{ActiveAlert}
use seestorm_ingest.Health.{
  Registry, record_success, record_publish_put_failure, reset_publish_failures, feed_publish,
}
use seestorm_ingest.Publisher.{Snapshot, StateSnapshot, Publisher, new_snapshot, new_state_snapshot}

unfoldable pub filter_alerts_by_state : List ActiveAlert → Bytes → List ActiveAlert
filter_alerts_by_state alerts state = keep_if (λ a. contains a.states state) alerts

-- Whether the phase's context is done after an attempt, and with which error.
abbrev pub Interrupts : Type 0
Interrupts = ℕ → Option Error

-- The publisher as each attempt meets it: faults differ from attempt to attempt.
abbrev pub Destinations : Type 0 → Type 0
Destinations W = ℕ → Publisher W

pub record PublishResult (W : Type 0) : Type 0 where
  pub stored : W
  pub health : Option Registry
  pub merged_ok : Bool

-- What surrounds the phase: the clock at the snapshot and at its success, the publisher, the
-- context, and the order of the goroutines.
pub record PublishPhase (W : Type 0) : Type 0 where
  pub now : ℕ
  pub recorded_at : ℤ
  pub dest : Destinations W
  pub parent_merged : Interrupts
  pub parent_state : Bytes → Interrupts
  pub order : List Bytes

abbrev merged_done : Bool → ℤ → Option Registry → Option Registry
merged_done merged_ok at health =
    if merged_ok then record_success health feed_publish at else health

module _ {W : Type 0} where
  -- `rounds` attempts are left; `fn` is the call, whose per-attempt timeout is among its errors.
  unfoldable pub attempts_from :
      (ℕ → W → W × Option Error) → Interrupts → ℕ → ℕ → Option Error → W → W × Option Error
  attempts_from fn parent zero attempt last_err w = (w, last_err)
  attempts_from fn parent (suc rounds) attempt last_err w =
      let r = fn attempt w in
      elim r.1 [
        | none ↦ (r.0, none)
        | some e ↦ elim (rounds == 0) [
          | true ↦ (r.0, some e)
          | false ↦ elim (parent attempt) [
            | some c ↦ (r.0, some c)
            | none ↦ attempts_from fn parent rounds (suc attempt) (some e) r.0
          ]
        ]
      ]

  unfoldable pub attempt_publish :
      (ℕ → W → W × Option Error) → Interrupts → ℕ → W → W × Option Error
  unfolding attempts_from
  attempt_publish fn parent max_attempts w = attempts_from fn parent max_attempts 0 none w

  unfoldable pub publish_with_retry : (ℕ → W → W × Option Error) → Interrupts → W → W × Bool
  unfolding attempt_publish
  publish_with_retry fn parent w =
      let r = attempt_publish fn parent (publish_put_max_retries + 1) w in
      elim r.1 [ none ↦ (r.0, true) | some e ↦ (r.0, false) ]

  -- One goroutine
  unfoldable pub publish_state :
      Destinations W
      → (Bytes → Interrupts)
      → List ActiveAlert
      → ℕ
      → Bytes
      → W × Option Registry
      → W × Option Registry
  unfolding publish_with_retry
  publish_state dest parent alerts generated_at state (w, health) =
      let snapshot = new_state_snapshot state (filter_alerts_by_state alerts state) generated_at in
      let r = publish_with_retry (λ k v. (dest k).publish_state snapshot v) (parent state) w in
      (r.0, if r.1 then health else record_publish_put_failure health state)

  -- `order` is the order in which the goroutines put.
  unfoldable pub publish_per_state_snapshots :
      Destinations W
      → (Bytes → Interrupts)
      → List ActiveAlert
      → ℕ
      → List Bytes
      → W × Option Registry
      → W × Option Registry
  unfolding publish_state
  publish_per_state_snapshots dest parent alerts generated_at [] s = s
  publish_per_state_snapshots dest parent alerts generated_at (state ∷ order) s =
      publish_per_state_snapshots dest parent alerts generated_at order
        (publish_state dest parent alerts generated_at state s)

  -- From the merged put's result on.
  unfoldable pub after_merged :
      PublishPhase W → List ActiveAlert → ℕ → Option Registry → W × Bool → PublishResult W
  unfolding publish_per_state_snapshots
  after_merged ph alerts generated_at health r =
      let s =
        publish_per_state_snapshots ph.dest ph.parent_state alerts generated_at ph.order
          (r.0, merged_done r.1 ph.recorded_at health) in
      record { stored = s.0; health = s.1; merged_ok = r.1 }

  -- `alerts` is what GetActiveAlerts returned.
  unfoldable pub publish_snapshot :
      PublishPhase W → List Bytes → Error ⊎ List ActiveAlert → W → Option Registry → PublishResult W
  unfolding publish_with_retry after_merged
  publish_snapshot ph areas (inl e) w health = record {
    stored = w;
    health = health;
    merged_ok = false;
  }
  publish_snapshot ph areas (inr alerts) w health =
      let snapshot = new_snapshot ph.now areas alerts in
      after_merged ph alerts snapshot.generated_at (reset_publish_failures health)
        (publish_with_retry (λ k v. (ph.dest k).publish snapshot v) ph.parent_merged w)
