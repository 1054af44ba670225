-- ===== src/Lib.antt =====
-- servone: a program that takes messages over HTTP, CoAP, MQTT and SNMP, stores each in PostgreSQL
-- and passes it on to Kafka. This library models its Go packages and proves what they do.
--
-- The parts and how they interact:
--   * kafka/kafka.go gives each topic its name (Kafka/Topic: `SanitizeTopic`) and publishes records
--     (Kafka/Publisher: `Publish`). The other packages see `KafkaPublisherInterface` alone; what they
--     rely on is Kafka/Contract, and Kafka/Logged is how they publish, with the error logged.
--   * db/database.go opens the pool (Db/Pools), creates the tables (Db/Tables), merges the path
--     variables into the data (Db/Merge), and saves: the methods of `Database` are in Db/Method, the
--     functions on the global `DbPool` in Db/Global, the rows and the record in Db/Rows. Db/Paths is
--     their case split, Db/Atomic, Db/Schema, Db/Same and Db/Setup are about them.
--   * server/server.go: the template cache (Server/Template), routes and reload (Server/Routes), and
--     the handler of a request with its goroutine (Server/Handler), start and shutdown
--     (Server/Lifecycle). coap/coap.go likewise: Coap/Template, Coap/Handler, and in Coap/Server its
--     construction, stop, reload and listeners. Template is the execution of a template, which both
--     have.
--   * snmpclient/snmp.go: security parameters (Snmp/Security), results (Snmp/Results), GET, WALK and
--     one round of the walk scheduler (Snmp/Client), the scheduler's goroutine with `Stop`
--     (Snmp/Scheduler), traps (Snmp/Trap); snmpclient/handler.go is Snmp/Handler.
--   * mqttclient/mqtt.go is Mqtt, metrics/metrics.go is Metrics, config/config.go is Config,
--     and config/watcher.go is Config/Watcher.
--   * cmd/servfull/main.go is Programs/Full and cmd/servrest/main.go is Programs/Rest, with what both
--     share in Programs/Host. Programs/Releases says what a run gives back, and has the rules for
--     `main`, step by step. Programs/Race is the end of both: `main` with its deferred calls, and
--     the goroutine that serves HTTP; Programs/Race/Owed has what is left to give back at each of
--     the calls, Programs/Race/Cuts where the process can be cut.
--   * World is the state that the packages share: the global `DbPool`, the goroutines that were
--     started, and the trace of what was done outside of the program, the newest event first. A
--     call is an `Action`, which returns, panics or ends the process. `defer` is `deferring`. Trace
--     counts the rows and the records of a trace. Value is JSON data, Http and Go are what the
--     handlers use of net/http and of the standard library, Prelude holds texts, integers and tests.
--   * Proofs stand in child modules of the part that they are about (Server/Handler/Stored,
--     Config/Watcher/Due, Snmp/Client/Rounds); tests, and the theorems at concrete inputs, in Tests.
--
-- How the code corresponds: functions keep their names in snake case; a function that returns
-- `error` returns an `Option` of an error; a Go map is a list of keys and values, a nil map or slice
-- is the empty one, and theorems about maps ask only that a key stands once; a `for range` over a
-- map visits the keys in the order of that list. An early return is a helper by clauses, which
-- stands above the function it belongs to. A log line is its format, without the arguments. Times
-- of the clock are in nanoseconds, deadlines and lifetimes in seconds. A Go string is taken to be
-- valid UTF-8.
--
-- Parameters stand for what is not in the repository, and may answer each call as they like: the
-- PostgreSQL driver, the Kafka client, encoding/json and the clock (`World.Env`, whose functions
-- of the world are given the number of the call), text/template (`Templates`), gosnmp (`Agents`,
-- `PduText`), go-coap's codes (`Codes`), the MQTT broker (`Broker`), the file system and YAML
-- (`ConfigFiles`), fsnotify and paths (`FileSystem`), net/http's server (`HttpServer`), and the
-- tables of characters, headers and dates (`Go`). Of go-coap's `ListenAndServe` nothing is
-- taken: it returns when it likes. What the goroutine of a CoAP request reads as the name of the
-- request's code, after the handler has returned, is a parameter too. Of net/http it is taken that
-- `Shutdown` makes `ListenAndServe` return, as its documentation says.
--
-- Loops are structural recursion, so no definition needs fuel; the monitor, the scheduler and the
-- listeners, whose loops need not end, are modelled by one round or by a step relation.
--
-- Not modelled: the handlers of the MQTT options that only log, and the locks. `main` waits for the
-- signal by a parameter, which stands also for what the goroutines do until then. Goroutines are
-- interleaved where a step relation says so (Coap/Server, Snmp/Scheduler, Programs/Race); elsewhere
-- each is an action of its own.
pub mod Prelude
pub mod Value
pub mod World
pub mod Trace
pub mod Metrics
pub mod Kafka
pub mod Db
pub mod Config
pub mod Snmp
pub mod Go
pub mod Template
pub mod Http
pub mod Mqtt
pub mod Server
pub mod Coap
pub mod Programs
mod Tests
