-- ===== src/Db/Global.antt =====
-- The functions of db/database.go that save a row through the global `DbPool`.
use servone.Prelude.{ℕ, String, Option, none, some}
use servone.Value.{Error, wrap, Result, ok, err, object, Fields, StringMap, of_strings}
use servone.World.{Env, Action, ◌>>=◌, ◌>>◌, done, now, exec, log_printf, get_db_pool}
use servone.Kafka.Publisher.{PublisherInterface}
use servone.Db.Merge.{merge}
use servone.Db.Method.{wrapped, publish_saved}
use servone.Db.Rows.{
  insert_client_data, insert_mqtt_message, insert_coap_message, insert_snmp_data, kafka_data,
}

module _ (env : Env) where
  logged_insert : Option Error → Option PublisherInterface → String → Fields → Action Unit
  unfolding log_printf publish_saved
  logged_insert (some e) publisher url payload =
      log_printf "Failed to insert data into database: %v"
  logged_insert none publisher url payload = publish_saved publisher url payload

  logged_params :
      String → Fields → StringMap → Option PublisherInterface → String → Result String → Action Unit
  unfolding now exec get_db_pool log_printf logged_insert
  logged_params url merged params publisher data_json (err e) =
      log_printf "Failed to marshal params to JSON: %v"
  logged_params url merged params publisher data_json (ok params_json) = do
    received ← now env
    pool ← get_db_pool
    created_at ← now env
    answer ← exec env pool none (insert_client_data url data_json params_json created_at)
    logged_insert answer publisher url (kafka_data merged params url received)

  logged_data :
      String → Fields → StringMap → Option PublisherInterface → Result String → Action Unit
  unfolding log_printf logged_params
  logged_data url merged params publisher (err e) = log_printf "Failed to marshal data to JSON: %v"
  logged_data url merged params publisher (ok data_json) =
      logged_params url merged params publisher data_json (env.marshal (object (of_strings params)))

  -- `SaveToDB`, which logs its errors and sets no deadline.
  unfoldable pub save_to_db : String → Fields → StringMap → Option PublisherInterface → Action Unit
  unfolding logged_data
  save_to_db url data_map params publisher =
      let merged = merge data_map params in
      logged_data url merged params publisher (env.marshal (object merged))

  inserted : Option Error → Option PublisherInterface → String → Fields → Action (Option Error)
  unfolding publish_saved
  inserted (some e) publisher url payload =
      done (some (wrap "failed to insert data into database: %w" e))
  inserted none publisher url payload = do publish_saved publisher url payload; done none

  save_params :
      String
      → Fields
      → StringMap
      → Option PublisherInterface
      → String
      → Result String
      → Action (Option Error)
  unfolding now exec get_db_pool inserted
  save_params url merged params publisher data_json (err e) =
      done (some (wrap "failed to marshal params to JSON: %w" e))
  save_params url merged params publisher data_json (ok params_json) = do
    received ← now env
    pool ← get_db_pool
    created_at ← now env
    answer ← exec env pool (some 5) (insert_client_data url data_json params_json created_at)
    inserted answer publisher url (kafka_data merged params url received)

  save_data :
      String
      → Fields
      → StringMap
      → Option PublisherInterface
      → Result String
      → Action (Option Error)
  unfolding save_params
  save_data url merged params publisher (err e) =
      done (some (wrap "failed to marshal data to JSON: %w" e))
  save_data url merged params publisher (ok data_json) =
      save_params url merged params publisher data_json (env.marshal (object (of_strings params)))

  -- `SaveToDBWithError`.
  unfoldable pub save_to_db_with_error :
      String → Fields → StringMap → Option PublisherInterface → Action (Option Error)
  unfolding save_data
  save_to_db_with_error url data_map params publisher =
      let merged = merge data_map params in
      save_data url merged params publisher (env.marshal (object merged))

  unfoldable pub save_mqtt_message : String → String → ℕ → Action (Option Error)
  unfolding exec get_db_pool
  save_mqtt_message topic payload received_time = do
    pool ← get_db_pool
    answer ← exec env pool (some 5) (insert_mqtt_message topic payload received_time)
    done (wrapped "failed to insert MQTT message: %w" answer)

  unfoldable pub save_coap_message : String → String → String → ℕ → Action (Option Error)
  unfolding exec get_db_pool
  save_coap_message path payload method received_time = do
    pool ← get_db_pool
    answer ← exec env pool (some 5) (insert_coap_message path payload method received_time)
    done (wrapped "failed to insert CoAP message: %w" answer)

  save_snmp_json : String → ℕ → Result String → Action (Option Error)
  unfolding exec get_db_pool
  save_snmp_json host received_time (err e) = done (some (wrap "failed to marshal SNMP data: %w" e))
  save_snmp_json host received_time (ok data_json) = do
    pool ← get_db_pool
    answer ← exec env pool (some 5) (insert_snmp_data host data_json received_time)
    done (wrapped "failed to insert SNMP data: %w" answer)

  unfoldable pub save_snmp_data : String → Fields → ℕ → Action (Option Error)
  unfolding save_snmp_json
  save_snmp_data host data_map received_time =
      save_snmp_json host received_time (env.marshal (object data_map))
