-- ===== src/Poller/Mode.antt =====
-- internal/poller/mode.go and heartbeat.go: the fleet role, and the gate of the heartbeat.
pub mod Examples
use seestorm_ingest.Base.{
  Bool, true, false, not, ◌&&◌, ◌||◌, ◌≡◌, refl, ◌⊎◌, inl, inr, Option, none, some, [], arith,
  if◌then◌else◌,
}
use seestorm_ingest.Base.Bytes.{Bytes, lit, bytes_eq, bytes_eq_iff}
use seestorm_ingest.Strings.{trim_space, to_lower}

-- A Go string, as in the source; the zero value is the empty one.
abbrev pub Mode : Type 0
Mode = Bytes

abbrev pub mode_both : Mode
mode_both = lit "both"

abbrev pub mode_ingest : Mode
mode_ingest = lit "ingest"

abbrev pub mode_publish : Mode
mode_publish = lit "publish"

-- `none` is the error.
unfoldable pub parse_mode : Bytes → Option Mode
parse_mode raw =
    let word = to_lower (trim_space raw) in
    if bytes_eq word [] || bytes_eq word mode_both
    then some mode_both
    else if bytes_eq word mode_ingest
    then some mode_ingest
    else if bytes_eq word mode_publish
    then some mode_publish
    else none

unfoldable pub should_ingest : Mode → Bool
should_ingest m = bytes_eq m [] || bytes_eq m mode_both || bytes_eq m mode_ingest

unfoldable pub should_publish : Mode → Bool
should_publish m = bytes_eq m [] || bytes_eq m mode_both || bytes_eq m mode_publish

unfoldable pub should_heartbeat : Mode → Bool → Bool → Bool
should_heartbeat mode alerts_ok merged_publish_ok =
    let ok = if should_ingest mode then true && alerts_ok else true in
    if should_publish mode then ok && merged_publish_ok else ok

-- What a role runs: ingest, publish.
abbrev pub role : Mode → Bool × Bool
role m = (should_ingest m, should_publish m)

-- The accepted words and what each one means.
abbrev Parsed : Bytes → Mode → Type 0
Parsed word m =
    (((word ≡ []) ⊎ (word ≡ mode_both)) × (m ≡ mode_both))
    ⊎ ((word ≡ mode_ingest) × (m ≡ mode_ingest))
    ⊎ ((word ≡ mode_publish) × (m ≡ mode_publish))

parse_mode-Parsed :
    (raw : Bytes) (m : Mode) → parse_mode raw ≡ some m → Parsed (to_lower (trim_space raw)) m
unfolding parse_mode
parse_mode-Parsed raw m h =
    let word = to_lower (trim_space raw) in
    ground (
      arith,
      bytes_eq_iff word [],
      bytes_eq_iff word mode_both,
      bytes_eq_iff word mode_ingest,
      bytes_eq_iff word mode_publish,
    )

-- A mode that is accepted runs at least one phase: both only if the trimmed, lower-cased text is
-- empty or "both", the ingest phase alone only if that text is "ingest", and the publish phase
-- alone only if it is "publish".
pub parse_mode-role :
    (raw : Bytes) (m : Mode)
    → parse_mode raw ≡ some m
    → let word = to_lower (trim_space raw) in
      (((word ≡ []) ⊎ (word ≡ mode_both)) × (role m ≡ (true, true)))
      ⊎ ((word ≡ mode_ingest) × (role m ≡ (true, false)))
      ⊎ ((word ≡ mode_publish) × (role m ≡ (false, true)))
unfolding should_ingest should_publish bytes_eq
parse_mode-role raw m h = elim (parse_mode-Parsed raw m h) [
  | inl (w, e) ↦ inl (w, rw e)
  | inr (inl (w, e)) ↦ inr (inl (w, rw e))
  | inr (inr (w, e)) ↦ inr (inr (w, rw e))
]

-- The heartbeat fires exactly when every phase that the mode runs has succeeded: a phase that it
-- does not run counts for nothing.
pub should_heartbeat_lem :
    (m : Mode) (alerts_ok merged_ok : Bool)
    → should_heartbeat m alerts_ok merged_ok
      ≡ ((not (should_ingest m) || alerts_ok) && (not (should_publish m) || merged_ok))
unfolding should_heartbeat
should_heartbeat_lem m alerts_ok merged_ok = ground arith
