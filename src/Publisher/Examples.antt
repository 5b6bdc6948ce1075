-- ===== src/Publisher/Examples.antt =====
-- The theorems about the publishers at a file destination and at a Multi of two of them.
use seestorm_ingest.Base.{ℕ, ◌≡◌, ◌≢◌, refl, none, some, List, [], ◌∷◌, inr, arith}
use seestorm_ingest.Base.Bytes.{Bytes, lit, bytes_eq, bytes_eq_iff}
use seestorm_ingest.Base.{false}
use seestorm_ingest.Base.Maps.{Map}
use seestorm_ingest.Publisher.{
  Snapshot, StateSnapshot, Publisher, new_snapshot, new_state_snapshot, multi, snapshot_key,
  per_state_key,
}
use seestorm_ingest.Publisher.Fanout.{Stores, placed, store_after, first_failure, multi-placed}
use seestorm_ingest.Publisher.Objects.{File, file_publish, file_publish_state, file_publisher, path}
use seestorm_ingest.Publisher.Objects.Atomic.{file_publish-AllOrNothing, Published}
use seestorm_ingest.Store.Errors.{other}

-- The temporary file of the merged snapshot cannot be written beyond two bytes.
abbrev file : Bytes → File
file dir = record {
  dir = dir;
  marshal = λ m. inr (lit "merged");
  marshal_state = λ s. inr (lit "state");
  mkdir_fails = λ d. none;
  write_fault = λ p. some (record { error = other 3; written = 2 });
  rename_fails = λ p. none;
}

abbrev merged : Snapshot
merged = new_snapshot 7 (lit "WI" ∷ []) []

abbrev wisconsin : StateSnapshot
wisconsin = new_state_snapshot (lit "WI") [] 7

abbrev before : Map Bytes
before k = some (lit "old")

abbrev final : Bytes
final = lit "d/active-events.json"

differ : (j k : Bytes) → (bytes_eq j k ≡ false) → j ≢ k
differ j k h e = ground (arith, bytes_eq_iff j k)

file_publish-AllOrNothing_example :
    Published
      (inr (lit "merged"))
      (path (file (lit "d")) snapshot_key)
      before
      (file_publish (file (lit "d")) merged before)
      final
    × Published
        (inr (lit "state"))
        (path (file (lit "d")) (per_state_key wisconsin.area_state))
        before
        (file_publish_state (file (lit "d")) wisconsin before)
        final
unfolding snapshot_key per_state_key bytes_eq new_state_snapshot
file_publish-AllOrNothing_example =
    file_publish-AllOrNothing (file (lit "d")) merged wisconsin before final (differ _ _ refl)
      (differ _ _ refl)

abbrev two : List (Publisher (Map Bytes))
two = file_publisher (file (lit "d")) ∷ file_publisher (file (lit "e")) ∷ []

multi-placed_example :
    let w : Stores (Map Bytes) = λ j. before in
    let r = (multi (placed 0 two)).publish merged w in
    let q = (multi (placed 0 two)).publish_state wisconsin w in
    ((j : ℕ) → r.0 j ≡ store_after (λ p. p.publish merged) two j (w j))
    × (r.1 ≡ first_failure (λ p. p.publish merged) two w)
    × ((j : ℕ) → q.0 j ≡ store_after (λ p. p.publish_state wisconsin) two j (w j))
    × (q.1 ≡ first_failure (λ p. p.publish_state wisconsin) two w)
multi-placed_example = multi-placed two merged wisconsin (λ j. before)
