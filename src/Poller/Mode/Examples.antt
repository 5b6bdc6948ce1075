-- ===== src/Poller/Mode/Examples.antt =====
-- Tests of the modes, and the theorems about them at concrete inputs.
use seestorm_ingest.Base.{◌≡◌, refl, some}
use seestorm_ingest.Base.Bytes.{lit, bytes_eq}
use seestorm_ingest.Strings.{trim_space, to_lower}
use seestorm_ingest.Poller.Mode.{parse_mode}

parses : parse_mode (lit " Publish ") ≡ some (lit "publish")
unfolding parse_mode trim_space to_lower bytes_eq
parses = refl
