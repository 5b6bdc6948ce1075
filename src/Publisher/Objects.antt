-- ===== src/Publisher/Objects.antt =====
-- internal/publisher/r2.go and file.go: the two destinations, each a map from keys or paths to contents.
-- An operation of the store or of the file system fails as its surroundings say: a put that fails may
-- still have been applied, and a write that fails may leave a part of the text.
pub mod Atomic
pub mod Keys
use seestorm_ingest.Base.{
  ℕ, Bool, true, false, Option, none, some, List, [], ◌∷◌, ◌++◌, ◌⊎◌, inl, inr, if◌then◌else◌, take,
}
use seestorm_ingest.Base.Bytes.{Bytes, lit}
use seestorm_ingest.Base.Maps.{Map, put, delete}
use seestorm_ingest.Store.Errors.{Error}
use seestorm_ingest.Publisher.{
  Snapshot, StateSnapshot, Publisher, snapshot_key, per_state_key, per_state_key_prefix,
}

-- How a put fails: its error, and whether the object was written all the same.
pub record PutFault : Type 0 where
  pub error : Error
  pub applied : Bool

-- json.Marshal of both shapes, the name of a history key, and the faults of PutObject at each key.
pub record R2 : Type 0 where
  pub marshal : Snapshot → Error ⊎ Bytes
  pub marshal_state : StateSnapshot → Error ⊎ Bytes
  pub history_stamp : ℕ → Bytes
  pub put_fault : Bytes → Option PutFault

-- client.PutObject
unfoldable pub put_object : R2 → Bytes → Bytes → Map Bytes → Map Bytes × Option Error
unfolding put
put_object r2 key text w = elim (r2.put_fault key) [
  | none ↦ (put key text w, none)
  | some f ↦ (if f.applied then put key text w else w, some f.error)
]

abbrev pub history_key : R2 → ℕ → Bytes
history_key r2 at = lit "history/" ++ (r2.history_stamp at ++ lit ".json")

-- The loop over the targets: it ends at the first error.
unfoldable pub put_targets : R2 → List Bytes → Bytes → Map Bytes → Map Bytes × Option Error
unfolding put_object
put_targets r2 [] text w = (w, none)
put_targets r2 (key ∷ keys) text w =
    let r = put_object r2 key text w in
    elim r.1 [ some e ↦ (r.0, some e) | none ↦ put_targets r2 keys text r.0 ]

unfoldable pub r2_publish : R2 → Snapshot → Map Bytes → Map Bytes × Option Error
unfolding put_targets
r2_publish r2 snapshot w = elim (r2.marshal snapshot) [
  | inl e ↦ (w, some e)
  | inr text ↦ put_targets r2 (snapshot_key ∷ history_key r2 snapshot.generated_at ∷ []) text w
]

unfoldable pub r2_publish_state : R2 → StateSnapshot → Map Bytes → Map Bytes × Option Error
unfolding put_object
r2_publish_state r2 snapshot w = elim (r2.marshal_state snapshot) [
  | inl e ↦ (w, some e)
  | inr text ↦ put_object r2 (per_state_key snapshot.area_state) text w
]

abbrev pub r2_publisher : R2 → Publisher (Map Bytes)
r2_publisher r2 = record { publish = r2_publish r2; publish_state = r2_publish_state r2 }

-- A write that fails leaves this many bytes.
pub record WriteFault : Type 0 where
  pub error : Error
  pub written : ℕ

pub record File : Type 0 where
  pub dir : Bytes
  pub marshal : Snapshot → Error ⊎ Bytes
  pub marshal_state : StateSnapshot → Error ⊎ Bytes
  pub mkdir_fails : Bytes → Option Error
  pub write_fault : Bytes → Option WriteFault
  pub rename_fails : Bytes → Option Error

-- filepath.Join of the directory and a name below it, both of them clean.
abbrev pub path : File → Bytes → Bytes
path p name = p.dir ++ (lit "/" ++ name)

-- os.Rename, in one directory: atomic.
unfoldable pub rename : Bytes → Bytes → Map Bytes → Map Bytes
unfolding put delete
rename old new w = elim (w old) [ none ↦ w | some text ↦ put new text (delete old w) ]

-- From the marshalled text on: write the temporary file, rename it.
unfoldable pub write_and_rename : File → Bytes → Bytes → Map Bytes → Map Bytes × Option Error
unfolding put rename
write_and_rename p name text w =
    let tmp_path = path p (name ++ lit ".tmp") in
    let final_path = path p name in
    elim (p.write_fault tmp_path) [
      | some f ↦ (put tmp_path (take f.written text) w, some f.error)
      | none ↦ elim (p.rename_fails tmp_path) [
        | some e ↦ (put tmp_path text w, some e)
        | none ↦ (rename tmp_path final_path (put tmp_path text w), none)
      ]
    ]

-- The steps that both methods of File make: the directory, the text, the two operations.
unfoldable pub write_snapshot :
    File → Bytes → Option Error → Error ⊎ Bytes → Map Bytes → Map Bytes × Option Error
unfolding write_and_rename
write_snapshot p name (some e) marshalled w = (w, some e)
write_snapshot p name none (inl e) w = (w, some e)
write_snapshot p name none (inr text) w = write_and_rename p name text w

unfoldable pub file_publish : File → Snapshot → Map Bytes → Map Bytes × Option Error
unfolding write_snapshot
file_publish p snapshot w =
    write_snapshot p snapshot_key (p.mkdir_fails p.dir) (p.marshal snapshot) w

unfoldable pub file_publish_state : File → StateSnapshot → Map Bytes → Map Bytes × Option Error
unfolding write_snapshot
file_publish_state p snapshot w =
    write_snapshot p (per_state_key snapshot.area_state)
      (p.mkdir_fails (path p per_state_key_prefix)) (p.marshal_state snapshot) w

abbrev pub file_publisher : File → Publisher (Map Bytes)
file_publisher p = record { publish = file_publish p; publish_state = file_publish_state p }
