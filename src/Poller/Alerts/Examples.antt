-- ===== src/Poller/Alerts/Examples.antt =====
-- Two cycles: the server sends a payload with an ETag, and then answers 304 to a request with it.
use seestorm_ingest.Base.{◌≡◌, ◌≢◌, refl, true, false, none, some, [], ◌∷◌, arith, inr}
use seestorm_ingest.Base.Bytes.{Bytes, lit, bytes_eq}
use seestorm_ingest.Base.Int.{pos}
use seestorm_ingest.Base.Maps.{put}
use seestorm_ingest.Http.{Response, response, Upstream}
use seestorm_ingest.Nws.Client.{fetch_active_alerts, alerts_endpoint}
use seestorm_ingest.Store.Batch.{Surroundings, upsert_alerts_batch}
use seestorm_ingest.Poller.Alerts.{State, Cycle, Setting, poll_alerts}
use seestorm_ingest.Poller.Alerts.Conditional.{Honest}
use seestorm_ingest.Poller.Alerts.Vouching.{run}

abbrev answer : Bytes → Response
answer [] = record { status = 200; etag = lit "v1"; retry_after = []; body = lit "{}" }
answer (x ∷ xs) = record { status = 304; etag = []; retry_after = []; body = [] }

abbrev pub server : Upstream
server = record {
  request_fails = λ k. false;
  reply = λ k req. response (answer req.if_none_match);
  remaining = λ k. none;
  interrupted = λ k. false;
  random = λ k n. 0;
}

answer-IfTagged :
    (tag : Bytes) (resp : Response)
    → response (answer tag) ≡ response resp
    → resp.status ≡ 304
    → tag ≢ []
answer-IfTagged [] resp e h = absurd (ground (arith, e, h))
answer-IfTagged (x ∷ xs) resp e h = λ p. cc p

pub server-Honest : Honest server
server-Honest k req resp e h = answer-IfTagged req.if_none_match resp e h

abbrev database : Surroundings
database = record {
  received_at = 100;
  row_received_at = λ i. 100;
  db_now = 100;
  begin_fails = none;
  exec_fails = λ i. none;
  close_fails = none;
  retire_fails = λ i. none;
  commit_fails = none;
  commit_landed = false;
  ctx_err = none;
  row_fails = λ i. none;
  pool_retire_fails = λ i. none;
}

abbrev pub cycle : Cycle
cycle = record { nws = server; store = database; recorded_at = pos 1 }

abbrev pub setting : Setting
setting = record {
  encode = λ q. lit "area=WI&status=actual";
  decode = λ s. some (record { type = lit "FeatureCollection"; features = [] });
  codec = record { parse_time = λ s. none; marshal = λ p. inr [] };
  areas = lit "WI" ∷ [];
}

abbrev pub start : State
start = record { etags = λ k. none; last_upsert_failed = false; health = none; table = [] }

succeeds : (poll_alerts setting cycle (run setting (cycle ∷ []) none start).1).ok ≡ true
unfolding poll_alerts run fetch_active_alerts upsert_alerts_batch put bytes_eq alerts_endpoint
succeeds = refl
