-- ===== src/Store/Batch/Content.antt =====
-- About UpsertAlertsBatch of internal/store/postgres.go: the values of a row after the statements of a
-- batch.
use seestorm_ingest.Base.{
  ℕ, ◌≡◌, refl, sym, subst, ap, ◌∙◌, inl, inr, Option, none, some, List, [], ◌∷◌, arith, Bool-cases,
  if◌then◌else◌,
}
use seestorm_ingest.Base.Bytes.{Bytes, bytes_eq, bytes_eq_iff}
use seestorm_ingest.Nws.Alert.{Alert}
use seestorm_ingest.Store.Args.{Codec, ArgsResult, args, alert_upsert_args}
use seestorm_ingest.Store.Table.{AlertArgs, Row, Table, find, upsert_row, on_conflict}
use seestorm_ingest.Store.Table.Rows.{find-upsert_row, upserted}
use seestorm_ingest.Store.Supersede.Marks.{KeptOrRetired}
use seestorm_ingest.Store.Batch.{exec_queued}

-- The alerts of a batch that are written, with the values of their rows; the others are skipped.
abbrev pub written_if : Alert → ArgsResult → List (Alert × AlertArgs) → List (Alert × AlertArgs)
written_if alert (args a) rest = (alert, a) ∷ rest
written_if alert _ rest = rest

unfoldable pub writable : Codec → ℕ → List Alert → List (Alert × AlertArgs)
writable codec at [] = []
writable codec at (alert ∷ rest) =
    written_if alert (alert_upsert_args codec alert at) (writable codec at rest)

-- The last values for an identifier
unfoldable pub latest : Bytes → List (Alert × AlertArgs) → Option AlertArgs
latest id [] = none
latest id ((alert, a) ∷ q) = elim (latest id q) [
  | some b ↦ some b
  | none ↦ if bytes_eq a.nws_id id then some a else none
]

-- The row has these values; the sender and the effective time stay those of its first message.
abbrev pub Shows : AlertArgs → Row → Type 0
Shows a r = r.args ≡ record a { sender_name = r.sender_name; effective_at = r.effective_at }

-- The row of an identifier after a batch with these last values for it; without any it is as it was, but
-- for the time at which it was retired.
abbrev pub Content : Option AlertArgs → Option Row → Option Row → Type 0
Content (some a) before after = (r : Row) × (after ≡ some r) × Shows a r
Content none none after = after ≡ none
Content none (some r) after = (r' : Row) × (after ≡ some r') × (r'.args ≡ r.args)

pub Content-refl : (o : Option Row) → Content none o o
Content-refl none = refl
Content-refl (some r) = (r, refl, refl)

Shows-upserted : (a : AlertArgs) (o : Option Row) → Shows a (upserted a o)
unfolding on_conflict
Shows-upserted a none = refl
Shows-upserted a (some r) = refl

Shows-same : (a : AlertArgs) (r s : Row) → s.args ≡ r.args → Shows a r → Shows a s
Shows-same a r s e h =
    e
    ∙ h
    ∙ ap
        (λ (x : AlertArgs). record a { sender_name = x.sender_name; effective_at = x.effective_at })
        (sym e)

-- After one statement, and then no other for the identifier
Content-first :
    (a : AlertArgs) (id : Bytes) (before mid after : Option Row)
    → mid ≡ (if bytes_eq a.nws_id id then some (upserted a before) else before)
    → Content none mid after
    → Content (if bytes_eq a.nws_id id then some a else none) before after
Content-first a id before mid after e h = elim (Bool-cases (bytes_eq a.nws_id id)) [
  | inl same ↦
      let f : mid ≡ some (upserted a before) = rw same at e in
      let (r, at, kept) = subst (λ o. Content none o after) f h in
      rw same (r, at, Shows-same a (upserted a before) r kept (Shows-upserted a before))
  | inr other ↦
      let f : mid ≡ before = rw other at e in rw other (subst (λ o. Content none o after) f h)
]

Content-then :
    (a : AlertArgs) (id : Bytes) (later : Option AlertArgs) (before mid after : Option Row)
    → mid ≡ (if bytes_eq a.nws_id id then some (upserted a before) else before)
    → Content later mid after
    → Content
        (elim later [ some b ↦ some b | none ↦ if bytes_eq a.nws_id id then some a else none ])
        before
        after
Content-then a id (some b) before mid after e h = h
Content-then a id none before mid after e h = Content-first a id before mid after e h

upsert_row-mid :
    (a : AlertArgs) (id : Bytes) (t : Table)
    → find id (upsert_row a t)
      ≡ (if bytes_eq a.nws_id id then some (upserted a (find id t)) else find id t)
upsert_row-mid a id t = elim (Bool-cases (bytes_eq a.nws_id id)) [
  | inl same ↦
      find-upsert_row a id t
      ∙ rw same (ap (λ j. some (upserted a (find j t))) ((bytes_eq_iff a.nws_id id).0 same))
  | inr other ↦ find-upsert_row a id t ∙ rw other refl
]

pub exec_queued-Content :
    (id : Bytes) (q : List (Alert × AlertArgs)) (t : Table)
    → Content (latest id q) (find id t) (find id (exec_queued q t))
unfolding exec_queued latest
exec_queued-Content id [] t = Content-refl (find id t)
exec_queued-Content id ((alert, a) ∷ q) t =
    Content-then a id (latest id q) (find id t) (find id (upsert_row a t)) _ (upsert_row-mid a id t)
      (exec_queued-Content id q (upsert_row a t))

-- A pass of retirement leaves the values alone.
pub Content-retired :
    (landed : List Alert) (now : ℕ) (id : Bytes) (last : Option AlertArgs)
    (before mid after : Option Row)
    → KeptOrRetired landed now id mid after
    → Content last before mid
    → Content last before after
Content-retired landed now id last before mid after (inl same) h =
    subst (Content last before) (sym same) h
Content-retired landed now id (some a) before mid after (inr (r, at, _, _, gone)) (s, here, shows) =
    let e : s ≡ r = ground (arith, at, here) in
    (
      record r { retired_at = some now },
      gone,
      Shows-same a s (record r { retired_at = some now }) (ap (λ (x : Row). x.args) (sym e)) shows,
    )
Content-retired landed now id none none mid after (inr (r, at, _, _, gone)) h =
    absurd (ground (arith, at, h))
Content-retired landed now id none (some b) mid after (inr (r, at, _, _, gone)) (s, here, kept) =
    let e : s ≡ r = ground (arith, at, here) in
    (record r { retired_at = some now }, gone, ap (λ (x : Row). x.args) (sym e) ∙ kept)
