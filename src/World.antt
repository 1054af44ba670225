-- ===== src/World.antt =====
-- The outside world as the program sees it, and the actions of the program on it.
-- The world answers each call by a parameter, `Env`, that is read at the number of the call, so
-- that any behaviour over time is an instance. A trace keeps the calls and their answers, the
-- newest first; a proof about what was saved or sent is a proof about the trace.
pub mod Laws
use servone.Prelude.{ℕ, suc, String, Bool, Option, none, some, List, [], ◌∷◌}
use servone.Value.{Error, Result, ok, err, Value, Fields}

-- A `*sql.DB`.
abbrev pub Pool : Type 0
Pool = ℕ

pub data Table : Type 0 where
  client_data mqtt_messages coap_messages snmp_data : Table

pub data ColumnType : Type 0 where
  serial_primary_key text_not_null text jsonb bigint : ColumnType

-- A column of an INSERT with its argument.
pub data Arg : Type 0 where
  string_arg : String → Arg
  bytes_arg : String → Arg
  int_arg : ℕ → Arg

-- The statements that the program sends: `CREATE TABLE IF NOT EXISTS` with its columns, and
-- `INSERT INTO` with its columns and arguments.
pub data Statement : Type 0 where
  create_table : Table → List (String × ColumnType) → Statement
  insert_into : Table → List (String × Arg) → Statement

-- What a Kafka produce comes to within the five seconds that `Publish` waits.
pub data Delivery : Type 0 where
  delivered : Delivery
  failed : Error → Delivery
  timed_out : Delivery

pub data Counter : Type 0 where
  http_requests_total coap_requests_total mqtt_messages_received : Counter
  snmp_operations_total db_operations_total kafka_publish_total : Counter

pub data Histogram : Type 0 where
  http_request_duration db_operation_duration kafka_publish_duration : Histogram

pub data Gauge : Type 0 where
  db_connections_active db_connections_idle db_connections_total : Gauge

-- Calls of the outside world, with their answers. A deadline is in seconds; a duration is in
-- nanoseconds. A line of the log is its format. `configured` holds the limits of open and of idle
-- connections and the lifetime of a connection in seconds.
pub data Event : Type 0 where
  logged : String → Event
  printed : String → Event
  configured : Pool → ℕ → ℕ → ℕ → Event
  opened : String → Option Error → Event
  pinged : Pool → Option Error → Event
  closed : Pool → Option Error → Event
  executed : Pool → Option ℕ → Statement → Option Error → Event
  produced : String → String → Delivery → Event
  kafka_opened : List String → Option Error → Event
  kafka_closed : Event
  snmp_connected : String → Option Error → Event
  snmp_got : String → List String → Option Error → Event
  snmp_walked : String → String → Option Error → Event
  snmp_disconnected : String → Event
  mqtt_connected : String → String → Option Error → Event
  mqtt_subscribed : String → ℕ → Option Error → Event
  mqtt_disconnected : ℕ → Event
  trap_closed : Event
  watcher_opened : Option Error → Event
  directory_watched : String → Option Error → Event
  debouncer_stopped : Event
  watcher_closed : Event
  http_served : String → Error → Event
  http_shut_down : Option Error → Event
  incremented : Counter → List String → Event
  observed : Histogram → List String → ℕ → Event
  gauge_set : Gauge → ℕ → Event

-- The answers: of the clock (nanoseconds), of the database driver, of the Kafka client, and of
-- `encoding/json`. The first argument is the number of the call.
pub record Env : Type 0 where
  pub clock : ℕ → ℕ
  pub open_pool : ℕ → String → Result Pool
  pub ping : ℕ → Pool → Option Error
  pub close_pool : ℕ → Pool → Option Error
  pub exec : ℕ → Pool → Option ℕ → Statement → Option Error
  pub produce : ℕ → String → String → Delivery
  pub marshal : Value → Result String
  pub unmarshal : String → Result Fields

-- The goroutines that the program starts, with what they have captured: the reporter of the pool's
-- numbers, the trap listener, the walk scheduler, the watcher's loop, the HTTP server, the saving of
-- an HTTP request (url, data, parameters), that of a CoAP request (path, payload, data; it has the
-- message too, not its code), and a CoAP listener (address).
pub data Goroutine : Type 0 where
  monitor_pool trap_listen walk_scheduler watch_files serve_http : Goroutine
  save_request : String → Fields → List (String × String) → Goroutine
  save_coap : String → String → Fields → Goroutine
  coap_listen : String → Goroutine

-- `db_pool` is the global `DbPool`, `none` for nil; the goroutines are those that were started and
-- have not run yet, the newest first.
pub record World : Type 0 where
  pub calls : ℕ
  pub trace : List Event
  pub db_pool : Option Pool
  pub goroutines : List Goroutine

-- A call returns, panics, or ends the process (`log.Fatalf`).
pub data Outcome (A : Type 0) : Type 0 where
  returned : A → Outcome A
  panicked : String → Outcome A
  exited : ℕ → Outcome A

abbrev pub Action : Type 0 → Type 0
Action A = World → Outcome A × World

abbrev pub and_then : {A B : Type 0} → Outcome A × World → (A → Action B) → Outcome B × World
and_then (returned a, w) f = f a w
and_then (panicked e, w) f = (panicked e, w)
and_then (exited n, w) f = (exited n, w)

infixl 5 ◌>>=◌ ◌>>◌
abbrev pub ◌>>=◌ : {A B : Type 0} → Action A → (A → Action B) → Action B
◌>>=◌ m f w = and_then (m w) f

abbrev pub ◌>>◌ : {B : Type 0} → Action Unit → Action B → Action B
m >> k = m >>= λ _. k

-- `defer cleanup()` before `m`: the cleanup runs if `m` returns and if it panics, and not if the
-- process ends.
abbrev pub finally : {A : Type 0} → Outcome A × World → Action Unit → Outcome A × World
finally (returned a, w) cleanup = (returned a, (cleanup w).1)
finally (panicked e, w) cleanup = (panicked e, (cleanup w).1)
finally (exited n, w) cleanup = (exited n, w)

abbrev pub deferring : {A : Type 0} → Action Unit → Action A → Action A
deferring cleanup m w = finally (m w) cleanup

abbrev pub done : {A : Type 0} → A → Action A
done a w = (returned a, w)

abbrev pub panic : {A : Type 0} → String → Action A
panic e w = (panicked e, w)

-- The second part of `(T, error)`.
abbrev pub result_error : {A : Type 0} → Result A → Option Error
result_error (ok a) = none
result_error (err e) = some e

-- One event, which takes a call.
abbrev pub record_event : Event → World → World
record_event e w = record w { calls = suc w.calls; trace = e ∷ w.trace }

-- log.Printf and log.Println, by the format.
unfoldable pub log_printf : String → Action Unit
log_printf format w = (returned tt, record_event (logged format) w)

-- The log line of an error, if there is one.
unfoldable pub log_error : String → Option Error → Action Unit
unfolding log_printf
log_error format none = done tt
log_error format (some e) = log_printf format

-- fmt.Println.
unfoldable pub println : String → Action Unit
println line w = (returned tt, record_event (printed line) w)

-- log.Fatalf logs and ends the process with status 1; deferred calls do not run.
unfoldable pub log_fatalf : {A : Type 0} → String → Action A
log_fatalf format w = (exited 1, record_event (logged format) w)

-- A `go` statement.
unfoldable pub spawn : Goroutine → Action Unit
spawn routine w = (returned tt, record w { goroutines = routine ∷ w.goroutines })

-- SetMaxOpenConns, SetMaxIdleConns and SetConnMaxLifetime.
unfoldable pub configure_pool : Pool → ℕ → ℕ → ℕ → Action Unit
configure_pool p open_max idle_max lifetime w =
    (returned tt, record_event (configured p open_max idle_max lifetime) w)

-- Reading and writing the global `DbPool`.
unfoldable pub get_db_pool : Action (Option Pool)
get_db_pool w = (returned w.db_pool, w)

unfoldable pub set_db_pool : Option Pool → Action Unit
set_db_pool p w = (returned tt, record w { db_pool = p })

unfoldable pub inc : Counter → List String → Action Unit
inc c labels w = (returned tt, record_event (incremented c labels) w)

unfoldable pub observe : Histogram → List String → ℕ → Action Unit
observe h labels d w = (returned tt, record_event (observed h labels d) w)

unfoldable pub set_gauge : Gauge → ℕ → Action Unit
set_gauge g n w = (returned tt, record_event (gauge_set g n) w)

module _ (env : Env) where
  -- time.Now().
  unfoldable pub now : Action ℕ
  now w = (returned (env.clock w.calls), record w { calls = suc w.calls })

  -- `db.Exec`, or `db.ExecContext` with a deadline; a nil pool is a nil dereference.
  unfoldable pub exec : Option Pool → Option ℕ → Statement → Action (Option Error)
  exec none deadline stmt w = (panicked "nil pointer dereference", w)
  exec (some pool) deadline stmt w =
      let answer = env.exec w.calls pool deadline stmt in
      (returned answer, record_event (executed pool deadline stmt answer) w)

  -- sql.Open.
  unfoldable pub open_pool : String → Action (Result Pool)
  open_pool conn w =
      let answer = env.open_pool w.calls conn in
      (returned answer, record_event (opened conn (result_error answer)) w)

  -- db.Ping.
  unfoldable pub ping : Pool → Action (Option Error)
  ping p w = let answer = env.ping w.calls p in (returned answer, record_event (pinged p answer) w)

  -- db.Close.
  unfoldable pub close_pool : Pool → Action (Option Error)
  close_pool p w =
      let answer = env.close_pool w.calls p in (returned answer, record_event (closed p answer) w)

  -- `client.Produce` with the wait for its result.
  unfoldable pub produce : String → String → Action Delivery
  produce topic payload w =
      let answer = env.produce w.calls topic payload in
      (returned answer, record_event (produced topic payload answer) w)
