-- ===== src/Db/Method.antt =====
-- The methods of `Database` that save a row, of db/database.go. Each waits five seconds at most.
use servone.Prelude.{ℕ, ◌-◌, String, Option, none, some}
use servone.Value.{Error, wrap, Result, ok, err, object, Fields, StringMap, of_strings}
use servone.World.{Env, Action, ◌>>=◌, ◌>>◌, done, now, exec, log_error, Pool}
use servone.Metrics.{record_db_operation}
use servone.Kafka.Topic.{sanitize_topic}
use servone.Kafka.Publisher.{PublisherInterface}
use servone.Db.Tables.{Database}
use servone.Db.Merge.{merge}
use servone.Db.Rows.{
  insert_client_data, insert_mqtt_message, insert_coap_message, insert_snmp_data, kafka_data,
}

-- `if err != nil { return fmt.Errorf(format, err) }; return nil`.
abbrev pub wrapped : String → Option Error → Option Error
wrapped format none = none
wrapped format (some e) = some (wrap format e)

-- `if publisher != nil { … }` after a successful insert: an error is logged and not returned.
unfoldable pub publish_saved : Option PublisherInterface → String → Fields → Action Unit
unfolding log_error
publish_saved none url payload = done tt
publish_saved (some publisher) url payload = do
  e ← publisher.publish (sanitize_topic url) payload
  log_error "Failed to publish to Kafka: %v" e

module _ (env : Env) where
  -- After the INSERT.
  inserted : Option Error → Option PublisherInterface → String → Fields → Action (Option Error)
  unfolding publish_saved
  inserted (some e) publisher url payload =
      done (some (wrap "failed to insert data into database: %w" e))
  inserted none publisher url payload = do publish_saved publisher url payload; done none

  -- After the merged data is marshalled: the parameters are.
  marshalled :
      Option Pool
      → String
      → Fields
      → StringMap
      → Option PublisherInterface
      → String
      → Result String
      → Action (Option Error)
  unfolding now exec inserted
  marshalled pool url merged params publisher data_json (err e) =
      done (some (wrap "failed to marshal params to JSON: %w" e))
  marshalled pool url merged params publisher data_json (ok params_json) = do
    received ← now env
    created_at ← now env
    answer ← exec env pool (some 5) (insert_client_data url data_json params_json created_at)
    inserted answer publisher url (kafka_data merged params url received)

  save_merged :
      Option Pool
      → String
      → Fields
      → StringMap
      → Option PublisherInterface
      → Result String
      → Action (Option Error)
  unfolding marshalled
  save_merged pool url merged params publisher (err e) =
      done (some (wrap "failed to marshal data to JSON: %w" e))
  save_merged pool url merged params publisher (ok data_json) =
      marshalled pool url merged params publisher data_json
        (env.marshal (object (of_strings params)))

  -- `Database.SaveToDBWithError`.
  unfoldable pub save_to_db_with_error :
      Database → String → Fields → StringMap → Option PublisherInterface → Action (Option Error)
  unfolding save_merged
  save_to_db_with_error d url data_map params publisher =
      let merged = merge data_map params in
      save_merged d.db url merged params publisher (env.marshal (object merged))

  -- The end of `SaveMQTTMessage`, which records the operation with its duration.
  recorded : ℕ → Option Error → Action (Option Error)
  unfolding now record_db_operation
  recorded start (some e) = do
    finish ← now env
    record_db_operation "insert" "mqtt_messages" "failed" (finish - start)
    done (some (wrap "failed to insert MQTT message: %w" e))
  recorded start none = do
    finish ← now env
    record_db_operation "insert" "mqtt_messages" "success" (finish - start)
    done none

  -- `Database.SaveMQTTMessage`.
  unfoldable pub save_mqtt_message : Database → String → String → ℕ → Action (Option Error)
  unfolding now exec recorded
  save_mqtt_message d topic payload received_time = do
    start ← now env
    answer ← exec env d.db (some 5) (insert_mqtt_message topic payload received_time)
    recorded start answer

  -- `Database.SaveCoapMessage`.
  unfoldable pub save_coap_message : Database → String → String → String → ℕ → Action (Option Error)
  unfolding exec
  save_coap_message d path payload method received_time = do
    answer ← exec env d.db (some 5) (insert_coap_message path payload method received_time)
    done (wrapped "failed to insert CoAP message: %w" answer)

  save_snmp_json : Database → String → ℕ → Result String → Action (Option Error)
  unfolding exec
  save_snmp_json d host received_time (err e) =
      done (some (wrap "failed to marshal SNMP data: %w" e))
  save_snmp_json d host received_time (ok data_json) = do
    answer ← exec env d.db (some 5) (insert_snmp_data host data_json received_time)
    done (wrapped "failed to insert SNMP data: %w" answer)

  -- `Database.SaveSNMPData`.
  unfoldable pub save_snmp_data : Database → String → Fields → ℕ → Action (Option Error)
  unfolding save_snmp_json
  save_snmp_data d host data_map received_time =
      save_snmp_json d host received_time (env.marshal (object data_map))
