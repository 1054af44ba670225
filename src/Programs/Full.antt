-- ===== src/Programs/Full.antt =====
-- cmd/servfull/main.go: the program that serves HTTP, CoAP, MQTT and SNMP.
pub mod Services
pub mod Laws
use servone.Prelude.{String, Bool, false, Option, none, some, List, [], ◌∷◌}
use servone.Value.{Error, Result, ok, err}
use servone.World.{
  Env, Pool, Action, ◌>>=◌, ◌>>◌, done, deferring, log_printf, log_error, log_fatalf, spawn,
  serve_http, get_db_pool,
}
use servone.Config.{Config, load_config}
use servone.Config.Watcher.{Reloadable, ConfigWatcher, new_config_watcher, start, stop}
use servone.Db.Pools.{init_db}
use servone.Db.Tables.{setup_database}
use servone.Kafka.Publisher.{PublisherInterface, new_kafka_publisher}
use servone.Mqtt.{Broker, new_mqtt_client, subscribe, disconnect}
use servone.Coap.Server as Coap
use servone.Coap.Server.{CoapServer, new_coap_server}
use servone.Snmp.Client.{SnmpClient, new_snmp_client}
use servone.Snmp.Scheduler as Scheduler
use servone.Snmp.Scheduler.{start_walk_scheduler}
use servone.Snmp.Trap.{TrapServer, new_trap_server, start_trap_server, stop_trap_server}
use servone.Server.Routes.{DynamicServer, new_dynamic_server}
use servone.Server.Lifecycle
use servone.Server.Lifecycle.{HttpServer, shut_down}
use servone.Programs.Host.{
  Host, or_fatal, fatal_if, close_pool_logged, reloadable_server, reloadable_coap,
}

-- The goroutine that serves HTTP: whatever ends `Start`, `log.Fatalf` follows.
unfoldable pub run_server : {T : Type 0} → HttpServer → DynamicServer T → Action Unit
unfolding Lifecycle.start log_fatalf
run_server http server = do e ← Lifecycle.start http server; log_fatalf "Server failed to start: %v"

-- `wait` is `<-sigChan`, with what the goroutines do until the signal comes, also to the fields of
-- the CoAP server.
module _ (T : Type 0) (host : Host) (broker : Broker) (wait : CoapServer → Action CoapServer) where
  -- From the watcher's start to the end of `main`.
  unfoldable pub serve : CoapServer → DynamicServer T → Action Unit
  unfolding log_printf log_error spawn shut_down Coap.stop
  serve coap_server server = do
    spawn serve_http
    at_signal ← wait coap_server
    log_printf "Shutting down server..."
    stopped ← Coap.stop at_signal
    e ← shut_down host.http server
    log_error "Server shutdown error: %v" e
    log_printf "All services stopped successfully"

  unfoldable pub watch : CoapServer → DynamicServer T → Action Unit
  unfolding new_config_watcher start stop serve
  watch coap_server server = do
    made ←
        new_config_watcher host.fs "config.yaml" (
          some (reloadable_server host.go server) ∷ some (reloadable_coap host.go coap_server) ∷ [])
    watcher ← or_fatal "Failed to create config watcher: %v" made
    e ← start host.fs watcher
    fatal_if "Failed to start config watcher: %v" e
    deferring (stop watcher) (serve coap_server server)

  -- From the trap server on; setting the global SNMP client is no effect on this world.
  unfoldable pub with_traps : Config → PublisherInterface → CoapServer → Action Unit
  unfolding get_db_pool start_trap_server stop_trap_server new_trap_server new_dynamic_server watch
  with_traps cfg publisher coap_server = do
    pool ← get_db_pool
    (trap_server, e) ← start_trap_server (new_trap_server cfg.snmptrap (some publisher) pool)
    fatal_if "Failed to start SNMP trap server: %v" e
    deferring (stop_trap_server trap_server)
        (do server ← new_dynamic_server host.go cfg (some publisher); watch coap_server server)

  -- From the MQTT subscription on.
  unfoldable pub with_mqtt : Config → PublisherInterface → Action Unit
  unfolding subscribe new_coap_server get_db_pool new_snmp_client start_walk_scheduler
      Scheduler.stop with_traps
  with_mqtt cfg publisher = do
    e ← subscribe broker "#"
    fatal_if "Failed to subscribe to MQTT topics: %v" e
    coap_server ← new_coap_server host.go cfg (some publisher)
    pool ← get_db_pool
    started ← start_walk_scheduler (new_snmp_client cfg.snmp pool (some publisher))
    deferring (Scheduler.stop false) (with_traps cfg publisher coap_server)

  unfoldable pub with_publisher : Config → PublisherInterface → Action Unit
  unfolding new_mqtt_client disconnect with_mqtt
  with_publisher cfg publisher = deferring publisher.close (do
    made ← new_mqtt_client broker cfg.mqtt.broker cfg.mqtt.client_id (some publisher)
    client ← or_fatal "Failed to create MQTT client: %v" made
    deferring (disconnect broker) (with_mqtt cfg publisher))

  -- From the opening of the pool.
  unfoldable pub with_pool : Config → Action Unit
  unfolding setup_database new_kafka_publisher with_publisher close_pool_logged
  with_pool cfg = deferring (close_pool_logged host.env) (do
    setup_database host.env
    made ← new_kafka_publisher host.env host.new_client cfg.kafka.brokers
    publisher ← or_fatal "Failed to create kafka publisher: %v" made
    with_publisher cfg publisher)

  -- `main`.
  unfoldable pub main : Action Unit
  unfolding load_config init_db with_pool
  main = do
    cfg ← or_fatal "Failed to load config: %v" (load_config host.files "config.yaml")
    e ← init_db host.env cfg.database.connection_string
    fatal_if "Failed to initialize database: %v" e
    with_pool cfg
