-- ===== src/Kafka/Logged.antt =====
-- Publishing as the other packages do it: the error is logged and dropped.
use servone.Prelude.{
  ℕ, suc, ◌≤◌, String, ◌≡◌, refl, ap, ◌∙◌, Option, none, some, List, [], ◌∷◌, ◌++◌, arith,
}
use servone.Value.{Error, Fields, object, ok}
use servone.World.{
  Env, World, Outcome, returned, Table, client_data, log_error, and_then, Event, Delivery,
  delivered, failed, timed_out, observed, incremented, produced, kafka_publish_duration,
  kafka_publish_total,
}
use servone.Trace.{stored, sent, attempts, stored-append, sent-append, attempts-append}
use servone.Kafka.Publisher.{PublisherInterface, publish}
use servone.Kafka.Publisher.Laws.{status_of, error_of, failure_log, publish_once}
use servone.Kafka.Topic.{sanitize_topic}
use servone.Kafka.Contract.{IsPublisher}

-- It returns, stores no row of the table, and hands over one record at most.
abbrev pub Publishes : Table → World → Outcome Unit × World → Type 0
Publishes t w (r, w') =
    (r ≡ returned tt)
    × (stored t w'.trace ≡ stored t w.trace)
    × (sent w'.trace ≤ suc (sent w.trace))

pub log_error_lem :
    (t : Table) (format : String) (e : Option Error) (w : World)
    → ((log_error format e w).0 ≡ returned tt)
      × (stored t (log_error format e w).1.trace ≡ stored t w.trace)
      × (sent (log_error format e w).1.trace ≡ sent w.trace)
unfolding log_error
log_error_lem t format none w = (refl, refl, refl)
log_error_lem t format (some e) w = (refl, refl, refl)

pub log_error-attempts :
    (format : String) (e : Option Error) (w : World)
    → attempts (log_error format e w).1.trace ≡ attempts w.trace
unfolding log_error
log_error-attempts format none w = refl
log_error-attempts format (some e) w = refl

pub publish_logged :
    (t : Table) (p : PublisherInterface) (format topic : String) (payload : Fields) (w : World)
    → IsPublisher p
    → Publishes t w (and_then (p.publish topic payload w) (λ e. log_error format e))
publish_logged t p format topic payload w h =
    let c = h topic payload w in
    let rows = stored-append t c.events w.trace c.no_sql in
    let records = sent-append c.events w.trace in
    let after = (p.publish topic payload w).1 in
    let (quiet, same_rows, same_records) = log_error_lem t format c.error after in
    rw c.returns (
      quiet,
      same_rows ∙ ap (stored t) c.adds ∙ rows,
      omega (arith, same_records, ap sent c.adds, records, c.once),
    )

sent_once :
    (topic payload : String) (d : Delivery) (took : ℕ) (es : List Event)
    → sent (
        observed kafka_publish_duration (topic ∷ []) took
          ∷ incremented kafka_publish_total (topic ∷ status_of d ∷ [])
          ∷ failure_log d
        ++ produced topic payload d ∷ es)
      ≡ suc (sent es)
sent_once topic payload delivered took es = refl
sent_once topic payload (failed e) took es = refl
sent_once topic payload timed_out took es = refl

-- Where the data is marshalled, the publisher of kafka/kafka.go hands over one record exactly.
pub publish_logged_sent :
    (env : Env) (format topic : String) (data_map : Fields) {payload : String} (w : World)
    → env.marshal (object data_map) ≡ ok payload
    → sent (and_then (publish env topic data_map w) (λ e. log_error format e)).1.trace
      ≡ suc (sent w.trace)
publish_logged_sent env format topic data_map {payload} w h =
    let (d, took, result, trace) = publish_once env topic data_map w h in
    let (_, _, same) =
      log_error_lem client_data format (error_of d) (publish env topic data_map w).1 in
    rw result (same ∙ ap sent trace ∙ sent_once (sanitize_topic topic) payload d took w.trace)

-- It connects to no SNMP agent.
pub publish_logged_attempts :
    (p : PublisherInterface) (format topic : String) (payload : Fields) (w : World)
    → IsPublisher p
    → attempts (and_then (p.publish topic payload w) (λ e. log_error format e)).1.trace
      ≡ attempts w.trace
publish_logged_attempts p format topic payload w h =
    let c = h topic payload w in
    rw c.returns (
      log_error-attempts format c.error (p.publish topic payload w).1
      ∙ ap attempts c.adds
      ∙ attempts-append c.events w.trace c.no_snmp)
