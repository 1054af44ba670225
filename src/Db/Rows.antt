-- ===== src/Db/Rows.antt =====
-- The INSERT statements of db/database.go and snmpclient/snmp.go, and the payload for Kafka.
use servone.Prelude.{ℕ, String, [], ◌∷◌}
use servone.Prelude.Int.{pos}
use servone.Value.{text, int, object, Fields, end, field, StringMap, of_strings}
use servone.World.{
  client_data, mqtt_messages, coap_messages, snmp_data, string_arg, bytes_arg, int_arg, Statement,
  insert_into,
}

-- The arguments are in the order of the statement's columns.
abbrev pub insert_client_data : String → String → String → ℕ → Statement
insert_client_data url data_json params_json created_at = insert_into client_data (
    ("url", string_arg url)
    ∷ ("data", bytes_arg data_json)
    ∷ ("parameters", bytes_arg params_json)
    ∷ ("created_at", int_arg created_at)
    ∷ [])

abbrev pub insert_mqtt_message : String → String → ℕ → Statement
insert_mqtt_message topic payload created_at = insert_into mqtt_messages (
    ("topic", string_arg topic)
    ∷ ("payload", string_arg payload)
    ∷ ("created_at", int_arg created_at)
    ∷ [])

abbrev pub insert_coap_message : String → String → String → ℕ → Statement
insert_coap_message path payload method created_at = insert_into coap_messages (
    ("path", string_arg path)
    ∷ ("payload", string_arg payload)
    ∷ ("method", string_arg method)
    ∷ ("created_at", int_arg created_at)
    ∷ [])

abbrev pub insert_snmp_data : String → String → ℕ → Statement
insert_snmp_data host data_json created_at = insert_into snmp_data (
    ("host", string_arg host)
    ∷ ("data", bytes_arg data_json)
    ∷ ("created_at", int_arg created_at)
    ∷ [])

-- The map `kafkaData`.
abbrev pub kafka_data : Fields → StringMap → String → ℕ → Fields
kafka_data merged params url received = field "data" (object merged) (
    field "params" (object (of_strings params))
      (field "url" (text url) (field "received" (int (pos received)) end)))
