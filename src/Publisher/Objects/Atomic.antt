-- ===== src/Publisher/Objects/Atomic.antt =====
-- About internal/publisher/file.go: what a reader of the directory sees.
use seestorm_ingest.Base.{
  ◌≡◌, ◌≢◌, refl, ◌⊎◌, inl, inr, Option, none, some, arith, if◌then◌else◌, ◌++◌, Option-cases,
}
use seestorm_ingest.Base.Bytes.{Bytes, lit, bytes_eq, bytes_eq_iff, bytes_eq_refl}
use seestorm_ingest.Base.Maps.{Map, put, delete}
use seestorm_ingest.Store.Errors.{Error}
use seestorm_ingest.Publisher.{Snapshot, StateSnapshot, snapshot_key, per_state_key}
use seestorm_ingest.Publisher.Objects.{
  File, path, rename, write_and_rename, write_snapshot, file_publish, file_publish_state,
}

-- At a path: on success the text at the final path, elsewhere what was there; on an error what was
-- there.
abbrev pub AllOrNothing : Bytes → Bytes → Map Bytes → Map Bytes × Option Error → Bytes → Type 0
AllOrNothing final text before r k =
    ((r.1 ≡ none) × (r.0 k ≡ (if bytes_eq k final then some text else before k)))
    ⊎ ((r.1 ≢ none) × (r.0 k ≡ before k))

rename-put :
    (k tmp final text : Bytes) (w : Map Bytes)
    → k ≢ tmp
    → rename tmp final (put tmp text w) k ≡ (if bytes_eq k final then some text else w k)
unfolding rename put delete
rename-put k tmp final text w h =
    ground (arith, bytes_eq_refl tmp, bytes_eq_iff k tmp, bytes_eq_iff k final)

put_tmp : (k tmp text : Bytes) (w : Map Bytes) → k ≢ tmp → put tmp text w k ≡ w k
unfolding put
put_tmp k tmp text w h = ground (arith, bytes_eq_iff k tmp)

write_and_rename-AllOrNothing :
    (p : File) (name text k : Bytes) (w : Map Bytes)
    → k ≢ path p (name ++ lit ".tmp")
    → AllOrNothing (path p name) text w (write_and_rename p name text w) k
unfolding write_and_rename
write_and_rename-AllOrNothing p name text k w h =
    let a = rename-put k (path p (name ++ lit ".tmp")) (path p name) text w h in
    let b = put_tmp k (path p (name ++ lit ".tmp")) text w h in
    elim (Option-cases (p.write_fault (path p (name ++ lit ".tmp")))) [
      | inr (f, e) ↦ rw (e, write_and_rename) (inr ((λ q. cc q), put_tmp k _ _ w h))
      | inl e ↦ elim (Option-cases (p.rename_fails (path p (name ++ lit ".tmp")))) [
        | inr (x, d) ↦ rw (e, d, write_and_rename) (inr ((λ q. cc q), b))
        | inl d ↦ rw (e, d, write_and_rename) (inl (refl, a))
      ]
    ]

-- What a publish does at a path: nothing with an error, or the text at the final path.
abbrev pub Published : Error ⊎ Bytes → Bytes → Map Bytes → Map Bytes × Option Error → Bytes → Type 0
Published (inl e) final before r k = (r.1 ≢ none) × (r.0 k ≡ before k)
Published (inr text) final before r k =
    ((r.1 ≢ none) × (r.0 k ≡ before k)) ⊎ AllOrNothing final text before r k

write_snapshot-Published :
    (p : File) (name : Bytes) (dir : Option Error) (marshalled : Error ⊎ Bytes) (w : Map Bytes)
    (k : Bytes)
    → k ≢ path p (name ++ lit ".tmp")
    → Published marshalled (path p name) w (write_snapshot p name dir marshalled w) k
unfolding write_snapshot
write_snapshot-Published p name (some e) (inl x) w k h = ((λ q. cc q), refl)
write_snapshot-Published p name (some e) (inr text) w k h = inl ((λ q. cc q), refl)
write_snapshot-Published p name none (inl x) w k h = ((λ q. cc q), refl)
write_snapshot-Published p name none (inr text) w k h =
    inr (write_and_rename-AllOrNothing p name text k w h)

-- A reader never sees a part of a snapshot: whatever fails, each path but that of the temporary file
-- holds what it held before, or, if the call reports no error, the final path holds the whole
-- marshalled snapshot and every other path what it held. This is so for the merged snapshot and for
-- that of a state.
pub file_publish-AllOrNothing :
    (p : File) (m : Snapshot) (s : StateSnapshot) (w : Map Bytes) (k : Bytes)
    → k ≢ path p (snapshot_key ++ lit ".tmp")
    → k ≢ path p (per_state_key s.area_state ++ lit ".tmp")
    → Published (p.marshal m) (path p snapshot_key) w (file_publish p m w) k
      × Published
          (p.marshal_state s)
          (path p (per_state_key s.area_state))
          w
          (file_publish_state p s w)
          k
unfolding file_publish file_publish_state
file_publish-AllOrNothing p m s w k h g = (
  write_snapshot-Published p snapshot_key _ _ w k h,
  write_snapshot-Published p (per_state_key s.area_state) _ _ w k g,
)
