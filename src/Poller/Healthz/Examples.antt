-- ===== src/Poller/Healthz/Examples.antt =====
-- /healthz after two cycles of a process that ingests and publishes.
use seestorm_ingest.Base.{◌≡◌, refl, ◌↔◌, All, some, List, [], ◌∷◌, ℕ}
use seestorm_ingest.Base.Int.{pos, ◌-ℤ◌}
use seestorm_ingest.Health.{new_registry, required_feeds, health_handler}
use seestorm_ingest.Health.Freshness.{FreshAt}
use seestorm_ingest.Poller.Mode.{should_ingest, should_publish}
use seestorm_ingest.Poller.Budget.{Context}
use seestorm_ingest.Poller.Cycle.{World, PollCycle}
use seestorm_ingest.Poller.Cycle.Examples.{config, poll_cycle, context, world}
use seestorm_ingest.Poller.Healthz.Cycles.{cycles, cycles_news, healthz-cycles}

abbrev fresh : World ℕ
fresh = record world { alerts = record world.alerts { health = some new_registry } }

abbrev two : List (Context × PollCycle ℕ)
two = (context, poll_cycle) ∷ (context, poll_cycle) ∷ []

healthz-cycles_example :
    let feeds = required_feeds (should_ingest config.mode) (should_publish config.mode) in
    ((health_handler (cycles config two fresh).alerts.health feeds (pos 90) (pos 99)).code ≡ 200)
    ↔ All (λ f. FreshAt (pos 99 -ℤ pos 90) (cycles_news config two fresh f)) feeds
healthz-cycles_example = healthz-cycles config two fresh (pos 90) (pos 99) refl
