-- ===== src/Kafka/Publisher/Laws.antt =====
-- What one `Publish` does.
use servone.Prelude.{ℕ, String, suc, ◌≡◌, refl, Option, none, some, List, [], ◌∷◌, ◌++◌}
use servone.Value.{Error, message, wrap, ok, err, Fields, object}
use servone.World.{
  Env, World, returned, Delivery, delivered, failed, timed_out, Event, logged, produced,
  incremented, observed, kafka_publish_total, kafka_publish_duration,
}
use servone.Kafka.Topic.{sanitize_topic}
use servone.Kafka.Publisher.{report, publish}

abbrev pub status_of : Delivery → String
status_of delivered = "success"
status_of (failed e) = "failed"
status_of timed_out = "timeout"

abbrev pub error_of : Delivery → Option Error
error_of delivered = none
error_of (failed e) = some e
error_of timed_out = some (message "timeout waiting for Kafka produce confirmation")

abbrev pub failure_log : Delivery → List Event
failure_log (failed e) = logged "Failed to produce message to Kafka: %v" ∷ []
failure_log _ = []

report_lem :
    (env : Env) (topic : String) (start : ℕ) (d : Delivery) (w : World)
    → (took : ℕ) × ((report env topic start d w).0 ≡ returned (error_of d))
      × ((report env topic start d w).1.trace
          ≡ observed kafka_publish_duration (topic ∷ []) took
              ∷ incremented kafka_publish_total (topic ∷ status_of d ∷ [])
              ∷ failure_log d
            ++ w.trace)
unfolding report
report_lem env topic start delivered w = (_, refl, refl)
report_lem env topic start (failed e) w = (_, refl, refl)
report_lem env topic start timed_out w = (_, refl, refl)

module _ (env : Env) (topic : String) (data_map : Fields) (w : World) where
  -- If the data cannot be marshalled, `Publish` returns that error wrapped; nothing is produced,
  -- counted or logged.
  pub publish_marshal_error :
      {e : Error}
      → env.marshal (object data_map) ≡ err e
      → publish env topic data_map w ≡ (
        returned (some (wrap "failed to marshal data for Kafka: %w" e)),
        record w { calls = suc w.calls },
      )
  unfolding publish
  publish_marshal_error h = rw h

  -- If the data is marshalled, `Publish` produces the payload once, to the sanitized topic, counts
  -- one publish of that topic under the status of the delivery, observes one duration, logs a
  -- failed delivery, and returns nil exactly for a delivered record and otherwise the error of the
  -- delivery or of the timeout.
  pub publish_once :
      {payload : String}
      → env.marshal (object data_map) ≡ ok payload
      → (d : Delivery) × (took : ℕ) × ((publish env topic data_map w).0 ≡ returned (error_of d))
        × ((publish env topic data_map w).1.trace
            ≡ observed kafka_publish_duration (sanitize_topic topic ∷ []) took
                ∷ incremented kafka_publish_total (sanitize_topic topic ∷ status_of d ∷ [])
                ∷ failure_log d
              ++ produced (sanitize_topic topic) payload d ∷ w.trace)
  unfolding publish
  publish_once {payload} h = rw h (
      let (took, result, trace) = report_lem env (sanitize_topic topic) (env.clock w.calls) _ _ in
      (env.produce (suc w.calls) (sanitize_topic topic) payload, took, result, trace))
