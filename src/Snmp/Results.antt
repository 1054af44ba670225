-- ===== src/Snmp/Results.antt =====
-- `getValueString`, `processResults` and `saveSNMPDataToDB` of snmpclient/snmp.go.
pub mod Collected
pub mod Laws
use servone.Prelude.{ℕ, String, Option, none, some, List, [], ◌∷◌}
use servone.Prelude.Int.{pos}
use servone.Prelude.Text.{◌<>◌}
use servone.Value.{
  Error, wrap, Result, ok, err, text, int, items, object, Items, nil, cons, Fields, end, field,
}
use servone.World.{
  Env, Pool, Outcome, returned, panicked, Action, ◌>>=◌, ◌>>◌, done, panic, now, exec, log_error,
}
use servone.Kafka.Topic.{sanitize_topic}
use servone.Kafka.Publisher.{PublisherInterface}
use servone.Db.Rows.{insert_snmp_data}
use servone.Db.Method.{wrapped}

-- The types of a PDU that the code tells apart.
pub data PduType : Type 0 where
  octet_string object_identifier : PduType
  other_type : ℕ → PduType

-- The dynamic type of a PDU's value: `[]byte`, `string`, or another, by its `%v` form.
pub data PduValue : Type 0 where
  byte_slice string_value other_value : String → PduValue

-- `gosnmp.SnmpPDU`.
pub record SnmpPdu : Type 0 where
  pub name : String
  pub type : PduType
  pub value : PduValue

-- What is used of gosnmp and of `fmt` to print a PDU: `Asn1BER.String` and the verb `%v`.
pub record PduText : Type 0 where
  pub type_string : PduType → String
  pub format_value : PduValue → String

module _ (print : PduText) where
  -- A type assertion that fails panics.
  value_string : PduType → PduValue → Action String
  value_string octet_string (byte_slice s) = done s
  value_string octet_string (string_value s) = panic "interface conversion"
  value_string octet_string (other_value s) = panic "interface conversion"
  value_string object_identifier (string_value s) = done s
  value_string object_identifier (byte_slice s) = panic "interface conversion"
  value_string object_identifier (other_value s) = panic "interface conversion"
  value_string (other_type t) v = done (print.format_value v)

  unfoldable pub get_value_string : SnmpPdu → Action String
  unfolding value_string
  get_value_string pdu = value_string pdu.type pdu.value

  -- The loop over the PDUs.
  unfoldable pub collect_results : List SnmpPdu → Action Items
  unfolding get_value_string
  collect_results [] = done nil
  collect_results (pdu ∷ pdus) = do
    value ← get_value_string pdu
    rest ← collect_results pdus
    done (
        cons
          (object (
            field "oid" (text pdu.name)
              (field "type" (text (print.type_string pdu.type)) (field "value" (text value) end))))
          rest)

  -- The map `data`.
  abbrev pub snmp_data_map : String → String → Items → ℕ → Fields
  snmp_data_map operation source results received_time = field "operation" (text operation) (
      field "source" (text source)
        (field "results" (items results) (field "timestamp" (int (pos received_time)) end)))

  module _ (env : Env) where
    save_json : Pool → String → ℕ → Result String → Action (Option Error)
    unfolding exec
    save_json db host received_time (err e) = done (some (wrap "failed to marshal SNMP data: %w" e))
    save_json db host received_time (ok data_json) = do
      answer ← exec env (some db) (some 5) (insert_snmp_data host data_json received_time)
      done (wrapped "failed to insert SNMP data: %w" answer)

    unfoldable pub save_snmp_data_to_db : Pool → String → Fields → ℕ → Action (Option Error)
    unfolding save_json
    save_snmp_data_to_db db host data_map received_time =
        save_json db host received_time (env.marshal (object data_map))

    -- `if db != nil { … }`.
    unfoldable pub save_if_open : Option Pool → String → Fields → ℕ → Action Unit
    unfolding save_snmp_data_to_db log_error
    save_if_open none source data_map received_time = done tt
    save_if_open (some db) source data_map received_time = do
      e ← save_snmp_data_to_db db source data_map received_time
      log_error "Failed to save SNMP data to DB: %v" e

    -- A nil publisher is a nil dereference.
    unfoldable pub publish_to : Option PublisherInterface → String → Fields → Action Unit
    unfolding log_error
    publish_to none topic data_map = panic "nil pointer dereference"
    publish_to (some publisher) topic data_map = do
      e ← publisher.publish topic data_map
      log_error "Failed to publish SNMP data to Kafka: %v" e

    -- `fmt.Sprintf("snmp.%s.%s", operation, kafka.SanitizeTopic(source))`.
    abbrev pub snmp_topic : String → String → String
    snmp_topic operation source = "snmp." <> (operation <> ("." <> sanitize_topic source))

    unfoldable pub process_results :
        String → String → List SnmpPdu → Option PublisherInterface → Option Pool → Action Unit
    unfolding now collect_results publish_to save_if_open
    process_results operation source pdus publisher db = do
      received_time ← now env
      results ← collect_results pdus
      publish_to publisher (snmp_topic operation source)
          (snmp_data_map operation source results received_time)
      save_if_open db source (snmp_data_map operation source results received_time) received_time
