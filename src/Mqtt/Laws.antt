-- ===== src/Mqtt/Laws.antt =====
-- What the client does with one MQTT message.
use servone.Prelude.{ℕ, suc, String, ◌≡◌, ◌⊎◌, inl, inr, Option, none, some, ◌∷◌, Option-cases}
use servone.Prelude.Text.{◌<>◌}
use servone.Value.{Error, ok, object, Fields}
use servone.World.{Env, World, Pool, returned, mqtt_messages, executed, logged, record_event}
use servone.Trace.{stored, sent}
use servone.Kafka.Publisher.{kafka_publisher}
use servone.Kafka.Contract.{kafka_publisher-IsPublisher}
use servone.Kafka.Logged.{publish_logged, publish_logged_sent}
use servone.Db.Rows.{insert_mqtt_message}
use servone.Mqtt.{mqtt_payload, publish_mqtt, handle_message}

module _ (env : Env) (topic payload : String) where
  -- One row more where the INSERT of some call succeeded, and none more where it was refused.
  abbrev pub Stores : Pool → ℕ → World → World → Type 0
  Stores p received w w' =
      (call : ℕ) × (((env.exec call p (some 5) (insert_mqtt_message topic payload received) ≡ none)
          × (stored mqtt_messages w'.trace ≡ suc (stored mqtt_messages w.trace)))
        ⊎ ((e : Error) × (env.exec call p (some 5) (insert_mqtt_message topic payload received)
              ≡ some e)
            × (stored mqtt_messages w'.trace ≡ stored mqtt_messages w.trace)))

  -- The world after the first log line, the reading of the clock and the INSERT.
  abbrev after_insert : Pool → ℕ → Option Error → World → World
  after_insert p received answer w = record {
    calls = suc (suc (suc w.calls));
    trace =
        executed p (some 5) (insert_mqtt_message topic payload received) answer
        ∷ logged "Received message on topic: %s and message : %s"
        ∷ w.trace;
    db_pool = some p;
    goroutines = w.goroutines;
  }

  publish_mqtt_lem :
      (data_map : Fields) {json : String} (w : World)
      → env.marshal (object data_map) ≡ ok json
      → ((publish_mqtt env (some (kafka_publisher env)) topic data_map w).0 ≡ returned tt)
        × (sent (publish_mqtt env (some (kafka_publisher env)) topic data_map w).1.trace
            ≡ suc (sent w.trace))
        × (stored mqtt_messages
              (publish_mqtt env (some (kafka_publisher env)) topic data_map w).1.trace
            ≡ stored mqtt_messages w.trace)
  unfolding publish_mqtt
  publish_mqtt_lem data_map w h =
      let (returns, rows, _) =
        publish_logged mqtt_messages (kafka_publisher env)
          "Failed to publish MQTT message to Kafka: %v" ("mq." <> topic) data_map w
          (kafka_publisher-IsPublisher env) in
      (
        returns,
        publish_logged_sent env "Failed to publish MQTT message to Kafka: %v" ("mq." <> topic)
            data_map w h,
        rows,
      )

  -- With `DbPool` open and the publisher of kafka/kafka.go, where the message can be marshalled,
  -- the callback returns and hands over one record exactly, whatever became of the row, and it
  -- stores one row, unless the INSERT is refused.
  pub handle_message_lem :
      (p : Pool) {json : String} (w : World)
      → w.db_pool ≡ some p
      → env.marshal (object (mqtt_payload topic payload (env.clock (suc w.calls)))) ≡ ok json
      → ((handle_message env
            (record { kafka_publisher = some (kafka_publisher env) })
            topic
            payload
            w).0
          ≡ returned tt)
        × (sent
              (handle_message env
                (record { kafka_publisher = some (kafka_publisher env) })
                topic
                payload
                w).1.trace
            ≡ suc (sent w.trace))
        × Stores p
            (env.clock (suc w.calls))
            w
            (handle_message env
              (record { kafka_publisher = some (kafka_publisher env) })
              topic
              payload
              w).1
  unfolding handle_message
  handle_message_lem p w opened h =
      let received = env.clock (suc w.calls) in
      elim (Option-cases
        (env.exec (suc (suc w.calls)) p (some 5) (insert_mqtt_message topic payload received))) [
          | inl ran ↦
              let (returns, one, same) =
                publish_mqtt_lem (mqtt_payload topic payload received)
                  (after_insert p received none w) h in
              rw (opened, ran) (returns, one, (suc (suc w.calls), inl (ran, same)))
          | inr (e, refused) ↦
              let (returns, one, same) =
                publish_mqtt_lem (mqtt_payload topic payload received)
                  (record_event (logged "Failed to save MQTT message to database: %v")
                    (after_insert p received (some e) w))
                  h in
              rw (opened, refused) (returns, one, (suc (suc w.calls), inr (e, refused, same)))
        ]
