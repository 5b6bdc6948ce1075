-- ===== src/Poller/Publish/Files.antt =====
-- About publishSnapshot of internal/poller/poller.go with the R2 destination of
-- internal/publisher/r2.go: what is stored after the phase.
use seestorm_ingest.Base.{
  ℕ, ◌≡◌, refl, ◌∙◌, ap, sym, true, Option, none, some, List, [], ◌∷◌, arith, subst, inl, inr,
  if◌then◌else◌, Bool,
}
use seestorm_ingest.Base.Bytes.{Bytes, bytes_eq, bytes_eq_iff, contains}
use seestorm_ingest.Base.Maps.{Map}
use seestorm_ingest.Store.Errors.{Error}
use seestorm_ingest.Store.Active.{ActiveAlert}
use seestorm_ingest.Health.{
  Registry, record_success, reset_publish_failures, feed_publish, record_publish_put_failure,
}
use mathlib.Core.Path.{fun_ext}
use seestorm_ingest.Publisher.{
  Snapshot, StateSnapshot, new_state_snapshot, snapshot_key, per_state_key,
}
use seestorm_ingest.Publisher.Objects.{
  R2, r2_publisher, r2_publish_state, put_object, history_key, put_targets, r2_publish,
}
use seestorm_ingest.Publisher.Objects.Keys.{per_state_key-snapshot_key, per_state_key_inj}
use seestorm_ingest.Poller.Publish.{
  after_merged, Destinations, publish_with_retry, publish_state, publish_per_state_snapshots,
  filter_alerts_by_state, publish_snapshot, PublishPhase, ℤ,
}
use seestorm_ingest.Publisher.{new_snapshot}
use seestorm_ingest.Poller.Publish.Puts.{
  never, retry_cases, put_object_key, put_object-ok, put_targets-ok, targets,
}

-- Both attempts marshal alike, and the second meets no fault.
pub record Recovers (r2 : ℕ → R2) (text : Snapshot → Bytes) (text_of : StateSnapshot → Bytes)
    : Type 0 where
  pub marshal : (k : ℕ) (s : Snapshot) → (r2 k).marshal s ≡ inr (text s)
  pub marshal_state : (k : ℕ) (s : StateSnapshot) → (r2 k).marshal_state s ≡ inr (text_of s)
  pub second : (key : Bytes) → (r2 1).put_fault key ≡ none

module _ (r2 : ℕ → R2) (text : Snapshot → Bytes) (text_of : StateSnapshot → Bytes)
    (ok : Recovers r2 text text_of) where
  abbrev pub dest : Destinations (Map Bytes)
  dest k = r2_publisher (r2 k)

  state_put :
      (k : ℕ) (s : StateSnapshot) (w : Map Bytes)
      → r2_publish_state (r2 k) s w ≡ put_object (r2 k) (per_state_key s.area_state) (text_of s) w
  unfolding r2_publish_state
  state_put k s w = rw (ok.marshal_state k s, r2_publish_state)

  second_put : (key t : Bytes) (w : Map Bytes) → (put_object (r2 1) key t w).1 ≡ none
  unfolding put_object
  second_put key t w = rw (ok.second key, put_object)

  abbrev written : Bytes → Bytes → Bytes → Map Bytes → Option Bytes
  written key t k w = if bytes_eq k key then some t else w k

  retry_put :
      (key t : Bytes) (w : Map Bytes) (k : Bytes)
      → let r = publish_with_retry (λ j v. put_object (r2 j) key t v) never w in
        (r.0 k ≡ written key t k w) × (r.1 ≡ true)
  retry_put key t w k =
      let first = put_object_key (r2 0) key t w k in
      let w' = (put_object (r2 0) key t w).0 in
      let again = put_object-ok (r2 1) key t w' k (second_put key t w') in
      elim (retry_cases (λ j v. put_object (r2 j) key t v) w (second_put key t w')) [
        | inl e ↦ rw e (ground (arith, first, again, bytes_eq_iff k key), refl)
        | inr (done, e) ↦ rw e (put_object-ok (r2 0) key t w k done, refl)
      ]

  abbrev state_text : List ActiveAlert → ℕ → Bytes → Bytes
  state_text alerts at state =
      text_of (new_state_snapshot state (filter_alerts_by_state alerts state) at)

  publish_state_lem :
      (alerts : List ActiveAlert) (at : ℕ) (state : Bytes) (w : Map Bytes)
      (health : Option Registry) (k : Bytes)
      → let r = publish_state dest (λ s. never) alerts at state (w, health) in
        (r.0 k ≡ written (per_state_key state) (state_text alerts at state) k w) × (r.1 ≡ health)
  unfolding publish_state new_state_snapshot
  publish_state_lem alerts at state w health k =
      let s = new_state_snapshot state (filter_alerts_by_state alerts state) at in
      let same : (λ (j : ℕ) (v : Map Bytes). put_object (r2 j) (per_state_key state) (text_of s) v)
          ≡ (λ (j : ℕ) (v : Map Bytes). r2_publish_state (r2 j) s v) =
        fun_ext λ j. fun_ext λ v. sym (state_put j s v) in
      let h = retry_put (per_state_key state) (text_of s) w k in
      subst
        (λ (f : ℕ → Map Bytes → Map Bytes × Option Error).
          let r = publish_with_retry f never w in
          (r.0 k ≡ written (per_state_key state) (text_of s) k w)
          × ((if r.1 then health else record_publish_put_failure health state) ≡ health))
        same (h.0, rw h.1)

  -- The files after the goroutines: each key of a state in the order has its text.
  per_state_lem :
      (alerts : List ActiveAlert) (at : ℕ) (order : List Bytes) (w : Map Bytes)
      (health : Option Registry)
      → let r = publish_per_state_snapshots dest (λ s. never) alerts at order (w, health) in
        ((s : Bytes)
          → r.0 (per_state_key s)
            ≡ (if contains order s then some (state_text alerts at s) else w (per_state_key s)))
        × (r.0 snapshot_key ≡ w snapshot_key)
        × (r.1 ≡ health)
  unfolding publish_per_state_snapshots contains
  per_state_lem alerts at [] w health = (λ s. refl, refl, refl)
  per_state_lem alerts at (state ∷ order) w health =
      let v = publish_state dest (λ s. never) alerts at state (w, health) in
      let (files, merged, kept) = per_state_lem alerts at order v.0 v.1 in
      (
        λ s.
            let mine = (publish_state_lem alerts at state w health (per_state_key s)).0 in
            let rest = files s in
            let keys = bytes_eq_iff (per_state_key s) (per_state_key state) in
            let names = bytes_eq_iff state s in
            let apart = per_state_key_inj s state in
            let together : state ≡ s → per_state_key s ≡ per_state_key state =
              λ e. ap per_state_key (sym e) in
            let texts : state ≡ s → state_text alerts at state ≡ state_text alerts at s =
              λ e. ap (state_text alerts at) e in
            let flip : s ≡ state → state ≡ s = λ e. sym e in ground arith,
        merged
            ∙ (publish_state_lem alerts at state w health snapshot_key).0
            ∙ ground (
              arith,
              bytes_eq_iff snapshot_key (per_state_key state),
              λ (e : snapshot_key ≡ per_state_key state). per_state_key-snapshot_key state (sym e),
            ),
        kept ∙ (publish_state_lem alerts at state w health snapshot_key).1,
      )

  merged_put :
      (k : ℕ) (m : Snapshot) (w : Map Bytes)
      → r2_publish (r2 k) m w ≡ put_targets (r2 k) (targets (r2 k) m) (text m) w
  unfolding r2_publish
  merged_put k m w = rw (ok.marshal k m, r2_publish)

  second_targets :
      (m : Snapshot) (w : Map Bytes) → (put_targets (r2 1) (targets (r2 1) m) (text m) w).1 ≡ none
  unfolding put_targets put_object
  second_targets m w =
      ground (arith, ok.second snapshot_key, ok.second (history_key (r2 1) m.generated_at))

  merged_lem :
      (m : Snapshot) (w : Map Bytes)
      → let r = publish_with_retry (λ k v. r2_publish (r2 k) m v) never w in
        (r.0 snapshot_key ≡ some (text m)) × (r.1 ≡ true)
  merged_lem m w =
      let same : (λ (k : ℕ) (v : Map Bytes). put_targets (r2 k) (targets (r2 k) m) (text m) v)
          ≡ (λ (k : ℕ) (v : Map Bytes). r2_publish (r2 k) m v) =
        fun_ext λ k. fun_ext λ v. sym (merged_put k m v) in
      subst
        (λ (f : ℕ → Map Bytes → Map Bytes × Option Error).
          let r = publish_with_retry f never w in (r.0 snapshot_key ≡ some (text m)) × (r.1 ≡ true))
        same
        (let w' = (put_targets (r2 0) (targets (r2 0) m) (text m) w).0 in
          elim (retry_cases (λ k v. put_targets (r2 k) (targets (r2 k) m) (text m) v) w
            (second_targets m w')) [
              | inl e ↦ rw e (put_targets-ok (r2 1) m (text m) w' (second_targets m w'), refl)
              | inr (done, e) ↦ rw e (put_targets-ok (r2 0) m (text m) w done, refl)
            ])

  after_merged_lem :
      (now : ℕ) (at : ℤ) (order areas : List Bytes) (alerts : List ActiveAlert)
      (health : Option Registry) (t : Bytes) (r : Map Bytes × Bool)
      → ((s : Bytes) → contains order s ≡ contains areas s)
      → (r.0 snapshot_key ≡ some t) × (r.1 ≡ true)
      → let ph : PublishPhase (Map Bytes) = record {
        now = now;
        recorded_at = at;
        dest = dest;
        parent_merged = never;
        parent_state = λ s. never;
        order = order;
      } in
        let p = after_merged ph alerts now health r in
        (p.merged_ok ≡ true)
        × (p.stored snapshot_key ≡ some t)
        × ((s : Bytes)
            → contains areas s ≡ true
            → p.stored (per_state_key s) ≡ some (state_text alerts now s))
        × (p.health ≡ record_success health feed_publish at)
  unfolding after_merged
  after_merged_lem now at order areas alerts health t r covers h =
      let (files, merged, kept) =
        per_state_lem alerts now order r.0 (record_success health feed_publish at) in
      rw h.1 (refl, merged ∙ h.0, (λ s e. files s ∙ rw (covers s ∙ e)), kept)

  -- The publish phase over R2, when each put may fail at its first attempt, written or not, and none
  -- at its second, and nothing interrupts the phase: it reports success, the live key holds the merged
  -- snapshot of the active alerts, and the key of each configured state holds the snapshot of exactly
  -- the alerts that name the state, with the merged one's time. No put counts as failed. The goroutines
  -- may put in any order that has every state.
  pub publish_snapshot-files :
      (now : ℕ) (at : ℤ) (order areas : List Bytes) (alerts : List ActiveAlert) (w : Map Bytes)
      (health : Option Registry)
      → ((s : Bytes) → contains order s ≡ contains areas s)
      → let ph : PublishPhase (Map Bytes) = record {
        now = now;
        recorded_at = at;
        dest = dest;
        parent_merged = never;
        parent_state = λ s. never;
        order = order;
      } in
        let r = publish_snapshot ph areas (inr alerts) w health in
        (r.merged_ok ≡ true)
        × (r.stored snapshot_key ≡ some (text (new_snapshot now areas alerts)))
        × ((s : Bytes)
            → contains areas s ≡ true
            → r.stored (per_state_key s)
              ≡ some (text_of (new_state_snapshot s (filter_alerts_by_state alerts s) now)))
        × (r.health ≡ record_success (reset_publish_failures health) feed_publish at)
  unfolding publish_snapshot new_snapshot
  publish_snapshot-files now at order areas alerts w health covers =
      after_merged_lem now at order areas alerts (reset_publish_failures health)
        (text (new_snapshot now areas alerts))
        (publish_with_retry (λ k v. r2_publish (r2 k) (new_snapshot now areas alerts) v) never w)
        covers (merged_lem (new_snapshot now areas alerts) w)
