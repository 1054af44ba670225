-- ===== src/Kafka/Publisher.antt =====
-- `KafkaPublisher` of kafka/kafka.go and its interface, kafka/kafka_interface.go.
pub mod Laws
use servone.Prelude.{ℕ, String, ◌-◌, Option, none, some, List}
use servone.Value.{Error, message, wrap, Result, ok, err, Fields, object}
use servone.World.{
  Env, Action, ◌>>=◌, ◌>>◌, done, Delivery, delivered, failed, timed_out, now, produce, log_printf,
  Event, kafka_opened, kafka_closed, World, Outcome, returned, record_event,
}
use servone.Metrics.{record_kafka_publish}
use servone.Kafka.Topic.{sanitize_topic}

-- `KafkaPublisherInterface`: what the other packages hold.
pub record PublisherInterface : Type 0 where
  pub publish : String → Fields → Action (Option Error)
  pub close : Action Unit

module _ (env : Env) where
  -- The `select` on the produce result and the timer. `time.Since` reads the clock once more.
  unfoldable pub report : String → ℕ → Delivery → Action (Option Error)
  unfolding now log_printf record_kafka_publish
  report topic start delivered = do
    finish ← now env
    record_kafka_publish topic "success" (finish - start)
    done none
  report topic start (failed e) = do
    log_printf "Failed to produce message to Kafka: %v"
    finish ← now env
    record_kafka_publish topic "failed" (finish - start)
    done (some e)
  report topic start timed_out = do
    finish ← now env
    record_kafka_publish topic "timeout" (finish - start)
    done (some (message "timeout waiting for Kafka produce confirmation"))

  -- What follows `json.Marshal`.
  unfoldable pub send : String → ℕ → Result String → Action (Option Error)
  unfolding produce report
  send topic start (err e) = done (some (wrap "failed to marshal data for Kafka: %w" e))
  send topic start (ok payload) = do
    delivery ← produce env topic payload
    report topic start delivery

  -- `KafkaPublisher.Publish`.
  unfoldable pub publish : String → Fields → Action (Option Error)
  unfolding now send
  publish topic data_map = do
    start ← now env
    send (sanitize_topic topic) start (env.marshal (object data_map))

  -- `KafkaPublisher.Close`.
  unfoldable pub close : Action Unit
  close w = (returned tt, record_event kafka_closed w)

  -- `*KafkaPublisher` as the interface.
  abbrev pub kafka_publisher : PublisherInterface
  kafka_publisher = record { publish = publish; close = close }

-- `kgo.NewClient`, whose answer is given.
unfoldable pub open_client : (ℕ → List String → Option Error) → List String → Action (Option Error)
open_client new_client brokers w =
    let answer = new_client w.calls brokers in
    (returned answer, record_event (kafka_opened brokers answer) w)

unfoldable pub opened : Env → Option Error → Action (Result PublisherInterface)
opened env (some e) = done (err e)
opened env none = done (ok (kafka_publisher env))

-- `NewKafkaPublisher`: the client takes the brokers, and creates topics as they are needed.
unfoldable pub new_kafka_publisher :
    Env → (ℕ → List String → Option Error) → List String → Action (Result PublisherInterface)
unfolding open_client opened
new_kafka_publisher env new_client brokers = do
  answer ← open_client new_client brokers
  opened env answer
