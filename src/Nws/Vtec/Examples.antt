-- ===== src/Nws/Vtec/Examples.antt =====
-- The round trip at the code of internal/nws/vtec.go's header, and tests of values that are none.
use seestorm_ingest.Base.{◌≡◌, refl, some, List, [], ◌∷◌}
use seestorm_ingest.Base.Bytes.{Bytes, lit}
use seestorm_ingest.Base.Maps.{Map}
use seestorm_ingest.Strings.{trim_space}
use seestorm_ingest.Regexp.{find_submatch, find_from, match_here, run, stop}
use seestorm_ingest.Nws.Products.{Vtec}
use seestorm_ingest.Nws.Vtec.{bad_vtec, parsed, parse_vtec, vtec_from, event_id}
use seestorm_ingest.Nws.Vtec.Roundtrip.{IsVtec, print, parse_vtec-print}

abbrev flood : Vtec
flood = record {
  product_class = lit "O";
  action = lit "CON";
  office = lit "KIND";
  phenomenon = lit "FL";
  significance = lit "W";
  etn = lit "0102";
}

abbrev times : Bytes
times = lit "000000T0000Z-260531T1800Z/"

flood-IsVtec : IsVtec flood
flood-IsVtec = record {
  product_class_ok = record { width = refl; bytes = (refl, tt) };
  action_ok = record { width = refl; bytes = (refl, (refl, (refl, tt))) };
  office_ok = record { width = refl; bytes = (refl, (refl, (refl, (refl, tt)))) };
  phenomenon_ok = record { width = refl; bytes = (refl, (refl, tt)) };
  significance_ok = record { width = refl; bytes = (refl, tt) };
  etn_ok = record { width = refl; bytes = (refl, (refl, (refl, (refl, tt)))) };
}

abbrev raw : Bytes
raw = lit " /O.CON.KIND.FL.W.0102.000000T0000Z-260531T1800Z/"

abbrev params : Map (List Bytes)
params k = some (lit " " ∷ raw ∷ lit "/KINDI.1.ER/" ∷ [])

raw-print : trim_space raw ≡ print flood times
unfolding trim_space print
raw-print = refl

parse_vtec-print_example : parse_vtec params ≡ parsed flood
unfolding trim_space
parse_vtec-print_example =
    parse_vtec-print flood times params (lit " " ∷ []) raw (lit "/KINDI.1.ER/" ∷ []) flood-IsVtec
      (refl, tt) raw-print refl

event_id_flood : event_id flood ≡ lit "KIND.FL.W.0102"
unfolding event_id
event_id_flood = refl

parse_vtec_hydro : parse_vtec (λ k. some (lit "/KINDI.1.ER.260530T1200Z/" ∷ [])) ≡ bad_vtec
unfolding parse_vtec vtec_from trim_space find_submatch find_from match_here run stop
parse_vtec_hydro = refl
