-- ===== src/Kafka/Contract.antt =====
-- What the other packages rely on of a publisher, and that `KafkaPublisher` gives it.
use servone.Prelude.{ℕ, ◌≤◌, String, ◌≡◌, ap, ◌∙◌, Option, List, [], ◌∷◌, ◌++◌, arith, inl, inr}
use servone.Value.{Error, Fields, object}
use servone.World.{
  Env, World, returned, Event, Delivery, delivered, failed, timed_out, observed, incremented,
  produced, kafka_publish_duration, kafka_publish_total,
}
use servone.Trace.{AllEvents, IsNoSql, IsNoSnmp, sent}
use servone.Kafka.Topic.{sanitize_topic}
use servone.Kafka.Publisher.{PublisherInterface, kafka_publisher, publish}
use servone.Kafka.Publisher.Laws.{
  status_of, error_of, failure_log, publish_marshal_error, publish_once,
}
use servone.Value.Cases.{Result-cases}
use mathlib.Core.List.{append_assoc}

-- A call of `Publish` from `w` returns (it does not panic), adds no SQL statement and no SNMP
-- connection to the trace, hands over one record at most, leaves `DbPool` and starts no goroutine.
pub record Published (p : PublisherInterface) (topic : String) (payload : Fields) (w : World)
    : Type 0 where
  pub error : Option Error
  pub returns : (p.publish topic payload w).0 ≡ returned error
  pub events : List Event
  pub adds : (p.publish topic payload w).1.trace ≡ events ++ w.trace
  pub no_sql : AllEvents IsNoSql events
  pub no_snmp : AllEvents IsNoSnmp events
  pub once : sent events ≤ 1
  pub keeps_goroutines : (p.publish topic payload w).1.goroutines ≡ w.goroutines
  pub keeps_pool : (p.publish topic payload w).1.db_pool ≡ w.db_pool

abbrev pub IsPublisher : PublisherInterface → Type 0
IsPublisher p = (topic : String) (payload : Fields) (w : World) → Published p topic payload w

publish-db_pool :
    (env : Env) (topic : String) (payload : Fields) (w : World)
    → (publish env topic payload w).1.db_pool ≡ w.db_pool
unfolding publish
publish-db_pool env topic payload w = ground arith

publish-goroutines :
    (env : Env) (topic : String) (payload : Fields) (w : World)
    → (publish env topic payload w).1.goroutines ≡ w.goroutines
unfolding publish
publish-goroutines env topic payload w = ground arith

-- The events of one publish.
abbrev publish_events : String → String → ℕ → Delivery → List Event
publish_events topic payload took d =
    observed kafka_publish_duration (topic ∷ []) took
      ∷ incremented kafka_publish_total (topic ∷ status_of d ∷ [])
      ∷ failure_log d
    ++ produced topic payload d ∷ []

publish_events-IsNoSql :
    (topic payload : String) (took : ℕ) (d : Delivery)
    → AllEvents IsNoSql (publish_events topic payload took d)
      × (sent (publish_events topic payload took d) ≤ 1)
publish_events-IsNoSql topic payload took delivered = omega arith
publish_events-IsNoSql topic payload took (failed e) = omega arith
publish_events-IsNoSql topic payload took timed_out = omega arith

publish_events-IsNoSnmp :
    (topic payload : String) (took : ℕ) (d : Delivery)
    → AllEvents IsNoSnmp (publish_events topic payload took d)
publish_events-IsNoSnmp topic payload took delivered = omega arith
publish_events-IsNoSnmp topic payload took (failed e) = omega arith
publish_events-IsNoSnmp topic payload took timed_out = omega arith

-- `*KafkaPublisher` is such a publisher, whatever the client and the encoder answer.
pub kafka_publisher-IsPublisher : (env : Env) → IsPublisher (kafka_publisher env)
kafka_publisher-IsPublisher env topic payload w =
    elim (Result-cases (env.marshal (object payload))) [
      | inr (e, h) ↦
          let same = publish_marshal_error env topic payload w h in
          record {
            error = _;
            returns = ap (λ r. r.0) same;
            events = [];
            adds = ap (λ r. r.1.trace) same;
            no_sql = tt;
            no_snmp = tt;
            once = omega arith;
            keeps_goroutines = publish-goroutines env topic payload w;
            keeps_pool = publish-db_pool env topic payload w;
          }
      | inl (a, h) ↦
          let (d, took, result, trace) = publish_once env topic payload w h in
          let (quiet, single) = publish_events-IsNoSql (sanitize_topic topic) a took d in
          record {
            error = error_of d;
            returns = result;
            events = publish_events (sanitize_topic topic) a took d;
            adds = trace ∙ simp append_assoc;
            no_sql = quiet;
            no_snmp = publish_events-IsNoSnmp (sanitize_topic topic) a took d;
            once = single;
            keeps_goroutines = publish-goroutines env topic payload w;
            keeps_pool = publish-db_pool env topic payload w;
          }
    ]
