-- ===== src/Snmp/Client.antt =====
-- `SNMPClient` of snmpclient/snmp.go: GET, WALK, and the rounds of the walk scheduler.
pub mod Sessions
pub mod Rounds
use servone.Prelude.{
  ℕ, ◌+◌, ◌-◌, ◌%◌, String, Bool, Option, none, some, List, [], ◌∷◌, if◌then◌else◌,
}
use servone.Prelude.Int.{ℤ, pos, negsuc, leb_ℤ}
use servone.Value.{Error, wrap, Result, ok, err}
use servone.World.{
  Env, Pool, World, Outcome, returned, Action, ◌>>=◌, ◌>>◌, done, deferring, log_printf, log_error,
  record_event, result_error, snmp_connected, snmp_got, snmp_walked, snmp_disconnected,
}
use servone.Kafka.Publisher.{PublisherInterface}
use servone.Config.{SnmpConfig}
use servone.Snmp.Security.{UsmSecurityParameters, get_security_params}
use servone.Snmp.Results.{SnmpPdu, PduText, process_results}

-- The `gosnmp.GoSNMP` that a request fills in: version 3, the user security model, and
-- authentication with privacy. The timeout is in seconds.
pub record Session : Type 0 where
  pub target : String
  pub port : ℕ
  pub security_parameters : UsmSecurityParameters
  pub timeout : ℤ
  pub retries : ℤ

-- The network, at the number of the call.
pub record Agents : Type 0 where
  pub connect : ℕ → Session → Option Error
  pub get : ℕ → Session → List String → Result (List SnmpPdu)
  pub walk : ℕ → Session → String → Result (List SnmpPdu)

-- `SNMPClient`; the channel `stop` and the wait group are the scheduler's.
pub record SnmpClient : Type 0 where
  pub config : SnmpConfig
  pub db : Option Pool
  pub kafka_publisher : Option PublisherInterface

unfoldable pub new_snmp_client : SnmpConfig → Option Pool → Option PublisherInterface → SnmpClient
new_snmp_client cfg db kafka_publisher = record {
  config = cfg;
  db = db;
  kafka_publisher = kafka_publisher;
}

-- `uint16(n)` of an `int`.
unfoldable pub to_uint16 : ℤ → ℕ
to_uint16 (pos n) = n % 65536
to_uint16 (negsuc n) = 65535 - n % 65536

unfoldable pub session_of : SnmpConfig → String → Session
unfolding to_uint16 get_security_params
session_of config target = record {
  target = target;
  port = to_uint16 config.port;
  security_parameters =
      get_security_params config.username config.auth_protocol config.auth_passphrase
        config.priv_protocol config.priv_passphrase;
  timeout = config.timeout;
  retries = config.retries;
}

module _ (agents : Agents) (print : PduText) (env : Env) where
  connect : Session → Action (Option Error)
  connect g w =
      let answer = agents.connect w.calls g in
      (returned answer, record_event (snmp_connected g.target answer) w)

  request_get : Session → List String → Action (Result (List SnmpPdu))
  request_get g oids w =
      let answer = agents.get w.calls g oids in
      (returned answer, record_event (snmp_got g.target oids (result_error answer)) w)

  request_walk : Session → String → Action (Result (List SnmpPdu))
  request_walk g root_oid w =
      let answer = agents.walk w.calls g root_oid in
      (returned answer, record_event (snmp_walked g.target root_oid (result_error answer)) w)

  disconnect : Session → Action Unit
  disconnect g w = (returned tt, record_event (snmp_disconnected g.target) w)

  -- What follows a GET or a WALK.
  finish : SnmpClient → String → String → Session → Result (List SnmpPdu) → Action (Option Error)
  unfolding process_results
  finish c operation failure g (err e) = done (some (wrap failure e))
  finish c operation failure g (ok pdus) = do
    process_results print env operation g.target pdus c.kafka_publisher c.db
    done none

  get_connected : SnmpClient → List String → Session → Option Error → Action (Option Error)
  unfolding request_get finish disconnect
  get_connected c oids g (some e) = done (some (wrap "connect failed: %w" e))
  get_connected c oids g none =
      deferring (disconnect g)
        do answer ← request_get g oids; finish c "get" "get failed: %w" g answer

  -- `SNMPClient.GetV3`.
  unfoldable pub get_v3 : SnmpClient → String → List String → Action (Option Error)
  unfolding session_of connect get_connected
  get_v3 c target oids = do
    let g = session_of c.config target
    answer ← connect g
    get_connected c oids g answer

  walk_connected : SnmpClient → String → Session → Option Error → Action (Option Error)
  unfolding request_walk finish disconnect
  walk_connected c root_oid g (some e) = done (some (wrap "connect failed: %w" e))
  walk_connected c root_oid g none =
      deferring (disconnect g)
        do answer ← request_walk g root_oid; finish c "walk" "walk failed: %w" g answer

  -- `SNMPClient.WalkV3`.
  unfoldable pub walk_v3 : SnmpClient → String → String → Action (Option Error)
  unfolding session_of connect walk_connected
  walk_v3 c target root_oid = do
    let g = session_of c.config target
    answer ← connect g
    walk_connected c root_oid g answer

  -- One tick of the scheduler: the loop over the targets.
  unfoldable pub walk_targets : SnmpClient → List String → Action Unit
  unfolding walk_v3 log_error
  walk_targets c [] = done tt
  walk_targets c (target ∷ targets) = do
    e ← walk_v3 c target c.config.root_oid
    log_error "Scheduled SNMP walk failed for target %s: %v" e
    walk_targets c targets
