-- ===== src/Metrics.antt =====
-- metrics/metrics.go: the metrics that the program records. Prometheus is outside of the model: a
-- call of it is an event. A duration is in nanoseconds.
use servone.Prelude.{ℕ, String, [], ◌∷◌}
use servone.World.{
  Action, ◌>>◌, inc, observe, set_gauge, http_requests_total, http_request_duration,
  coap_requests_total, mqtt_messages_received, snmp_operations_total, db_operations_total,
  db_operation_duration, kafka_publish_total, kafka_publish_duration, db_connections_active,
  db_connections_idle, db_connections_total,
}

unfoldable pub record_http_request : String → String → String → ℕ → Action Unit
unfolding inc observe
record_http_request method endpoint status duration = do
  inc http_requests_total (method ∷ endpoint ∷ status ∷ [])
  observe http_request_duration (method ∷ endpoint ∷ []) duration

unfoldable pub record_coap_request : String → String → String → Action Unit
unfolding inc
record_coap_request method endpoint status =
    inc coap_requests_total (method ∷ endpoint ∷ status ∷ [])

unfoldable pub record_mqtt_message : String → Action Unit
unfolding inc
record_mqtt_message topic = inc mqtt_messages_received (topic ∷ [])

unfoldable pub record_snmp_operation : String → String → String → Action Unit
unfolding inc
record_snmp_operation operation host status =
    inc snmp_operations_total (operation ∷ host ∷ status ∷ [])

unfoldable pub record_db_operation : String → String → String → ℕ → Action Unit
unfolding inc observe
record_db_operation operation table status duration = do
  inc db_operations_total (operation ∷ table ∷ status ∷ [])
  observe db_operation_duration (operation ∷ table ∷ []) duration

unfoldable pub record_kafka_publish : String → String → ℕ → Action Unit
unfolding inc observe
record_kafka_publish topic status duration = do
  inc kafka_publish_total (topic ∷ status ∷ [])
  observe kafka_publish_duration (topic ∷ []) duration

unfoldable pub update_db_connection_metrics : ℕ → ℕ → ℕ → Action Unit
unfolding set_gauge
update_db_connection_metrics active idle total = do
  set_gauge db_connections_active active
  set_gauge db_connections_idle idle
  set_gauge db_connections_total total
