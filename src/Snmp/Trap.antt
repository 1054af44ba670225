-- ===== src/Snmp/Trap.antt =====
-- `TrapServer` of snmpclient/snmp.go.
use servone.Prelude.{String, Option, none, some, List, if◌then◌else◌}
use servone.Value.{Error}
use servone.World.{
  Env, Pool, Action, ◌>>◌, done, log_printf, spawn, trap_listen, returned, record_event,
  trap_closed,
}
use servone.Kafka.Publisher.{PublisherInterface}
use servone.Config.{SnmpTrapConfig}
use servone.Snmp.Security.{UsmSecurityParameters, get_security_params}
use servone.Snmp.Results.{SnmpPdu, PduText, process_results}

-- `gosnmp.TrapListener`: version 3, the user security model, and authentication with privacy.
pub record TrapListener : Type 0 where
  pub security_parameters : UsmSecurityParameters

pub record TrapServer : Type 0 where
  pub config : SnmpTrapConfig
  pub db : Option Pool
  pub kafka_publisher : Option PublisherInterface
  pub listener : Option TrapListener

unfoldable pub new_trap_server :
    SnmpTrapConfig → Option PublisherInterface → Option Pool → TrapServer
new_trap_server cfg kafka_publisher db = record {
  config = cfg;
  db = db;
  kafka_publisher = kafka_publisher;
  listener = none;
}

abbrev listener_of : SnmpTrapConfig → TrapListener
listener_of c = record {
  security_parameters =
      get_security_params c.username c.auth_protocol c.auth_passphrase c.priv_protocol
        c.priv_passphrase;
}

-- `TrapServer.Start`: the listener listens in a goroutine of its own.
unfoldable pub start_trap_server : TrapServer → Action (TrapServer × Option Error)
unfolding log_printf spawn
start_trap_server ts =
    if ts.config.enabled
    then (do
      log_printf "Starting SNMP trap listener on %s"
      spawn trap_listen
      done (record ts { listener = some (listener_of ts.config) }, none))
    else (do log_printf "SNMP trap server is disabled."; done (ts, none))

-- `ts.listener.Close()`.
unfoldable pub close_listener : Action Unit
close_listener w = (returned tt, record_event trap_closed w)

-- `TrapServer.Stop`.
unfoldable pub stop_trap_server : TrapServer → Action Unit
unfolding log_printf close_listener
stop_trap_server ts = elim ts.listener [
  | none ↦ done tt
  | some l ↦ do close_listener; log_printf "SNMP trap listener stopped."
]

-- `TrapServer.handleTrap`, for a packet's variables and its sender's address.
unfoldable pub handle_trap : PduText → Env → TrapServer → List SnmpPdu → String → Action Unit
unfolding log_printf process_results
handle_trap print env ts variables addr = do
  log_printf "Received SNMP trap from %s"
  process_results print env "trap" addr variables ts.kafka_publisher ts.db
