-- ===== src/Poller/Publish/Puts.antt =====
-- About attemptPublish of internal/poller/poller.go and the puts of internal/publisher/r2.go.
use seestorm_ingest.Base.{
  ℕ, ◌≡◌, ◌≢◌, ap, sym, true, Option, none, some, List, [], ◌∷◌, arith, get_elem?, inl, inr, ◌⊎◌,
  Option-cases, if◌then◌else◌,
}
use seestorm_ingest.Base.Bytes.{Bytes, bytes_eq, bytes_eq_iff, bytes_eq_refl}
use seestorm_ingest.Base.Maps.{Map, put}
use seestorm_ingest.Store.Errors.{Error}
use seestorm_ingest.Publisher.{Snapshot, snapshot_key}
use seestorm_ingest.Publisher.Objects.{R2, put_object, history_key, put_targets}
use seestorm_ingest.Poller.Publish.{Interrupts, publish_with_retry, attempt_publish, attempts_from}

abbrev pub never : Interrupts
never k = none

module _ {W : Type 0} where
  -- A call that succeeds at its second attempt, unless at its first.
  pub retry_cases :
      (fn : ℕ → W → W × Option Error) (w : W)
      → (fn 1 (fn 0 w).0).1 ≡ none
      → (publish_with_retry fn never w ≡ ((fn 1 (fn 0 w).0).0, true))
        ⊎ (((fn 0 w).1 ≡ none) × (publish_with_retry fn never w ≡ ((fn 0 w).0, true)))
  unfolding publish_with_retry attempt_publish attempts_from
  retry_cases fn w h = elim (Option-cases (fn 0 w).1) [
    | inl e ↦ inr (e, ground (arith, e))
    | inr (x, e) ↦ inl (ground (arith, e, h))
  ]

pub put_object_key :
    (r2 : R2) (key text : Bytes) (w : Map Bytes) (k : Bytes)
    → k ≢ key
    → (put_object r2 key text w).0 k ≡ w k
unfolding put_object put
put_object_key r2 key text w k h = ground (arith, bytes_eq_iff k key)

pub put_object-ok :
    (r2 : R2) (key text : Bytes) (w : Map Bytes) (k : Bytes)
    → (put_object r2 key text w).1 ≡ none
    → (put_object r2 key text w).0 k ≡ (if bytes_eq k key then some text else w k)
unfolding put_object put
put_object-ok r2 key text w k h = ground arith

history_key-snapshot_key : (r2 : R2) (at : ℕ) → history_key r2 at ≢ snapshot_key
unfolding snapshot_key
history_key-snapshot_key r2 at h =
    let e : ◌≡◌ {A = Option ℕ} (some b'h') (some b'a') = ap (λ k. get_elem? k 0) h in ground arith

-- The two puts of the merged snapshot.
abbrev pub targets : R2 → Snapshot → List Bytes
targets r2 m = snapshot_key ∷ history_key r2 m.generated_at ∷ []

pub put_targets-ok :
    (r2 : R2) (m : Snapshot) (t : Bytes) (w : Map Bytes)
    → (put_targets r2 (targets r2 m) t w).1 ≡ none
    → (put_targets r2 (targets r2 m) t w).0 snapshot_key ≡ some t
unfolding put_targets put_object put
put_targets-ok r2 m t w h =
    let e = history_key-snapshot_key r2 m.generated_at in
    let i = bytes_eq_iff snapshot_key (history_key r2 m.generated_at) in
    let f : snapshot_key ≡ history_key r2 m.generated_at → ⊥ = λ p. e (sym p) in
    ground (arith, bytes_eq_refl snapshot_key)
