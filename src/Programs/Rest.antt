-- ===== src/Programs/Rest.antt =====
-- cmd/servrest/main.go: the program that serves HTTP alone.
pub mod Laws
use servone.Prelude.{String, Option, none, some, List, [], ◌∷◌}
use servone.Value.{Error, Result, ok, err}
use servone.World.{
  Env, Action, ◌>>=◌, ◌>>◌, done, deferring, log_printf, log_error, log_fatalf, spawn, serve_http,
}
use servone.Config.{Config, load_config}
use servone.Config.Watcher.{Reloadable, ConfigWatcher, new_config_watcher, start, stop}
use servone.Db.Pools.{init_db}
use servone.Db.Tables.{setup_database}
use servone.Kafka.Publisher.{PublisherInterface, new_kafka_publisher}
use servone.Server.Routes.{DynamicServer, new_dynamic_server}
use servone.Server.Lifecycle
use servone.Server.Lifecycle.{HttpServer, shut_down}
use servone.Programs.Host.{Host, or_fatal, fatal_if, close_pool_logged, reloadable_server}

-- The goroutine that serves HTTP: whatever ends `Start`, `log.Fatalf` follows.
unfoldable pub run_server : {T : Type 0} → HttpServer → DynamicServer T → Action Unit
unfolding log_printf Lifecycle.start log_fatalf
run_server http server = do
  log_printf "Starting REST API server on port"
  e ← Lifecycle.start http server
  log_fatalf "REST API server failed to start: %v"

-- `wait` is `<-sigChan`, with what the goroutines do until the signal comes.
module _ (T : Type 0) (host : Host) (wait : Action Unit) where
  -- From the watcher's start to the end of `main`.
  unfoldable pub serve : DynamicServer T → Action Unit
  unfolding log_printf log_error spawn shut_down
  serve server = do
    spawn serve_http
    wait
    log_printf "Shutting down REST API server..."
    e ← shut_down host.http server
    log_error "Server shutdown error: %v" e
    log_printf "REST API server stopped successfully"

  -- The watcher is given the server, and nil in place of the CoAP server.
  unfoldable pub watch : DynamicServer T → Action Unit
  unfolding new_config_watcher start stop serve
  watch server = do
    made ←
        new_config_watcher host.fs "config.yaml"
          (some (reloadable_server host.go server) ∷ none ∷ [])
    watcher ← or_fatal "Failed to create config watcher: %v" made
    e ← start host.fs watcher
    fatal_if "Failed to start config watcher: %v" e
    deferring (stop watcher) (serve server)

  unfoldable pub with_publisher : Config → PublisherInterface → Action Unit
  unfolding new_dynamic_server watch
  with_publisher cfg publisher =
      deferring publisher.close
        (do server ← new_dynamic_server host.go cfg (some publisher); watch server)

  -- From the opening of the pool.
  unfoldable pub with_pool : Config → Action Unit
  unfolding setup_database new_kafka_publisher with_publisher close_pool_logged
  with_pool cfg = deferring (close_pool_logged host.env) (do
    setup_database host.env
    made ← new_kafka_publisher host.env host.new_client cfg.kafka.brokers
    publisher ← or_fatal "Failed to create kafka publisher: %v" made
    with_publisher cfg publisher)

  -- `main`.
  unfoldable pub main : Action Unit
  unfolding load_config init_db with_pool
  main = do
    cfg ← or_fatal "Failed to load config: %v" (load_config host.files "config.yaml")
    e ← init_db host.env cfg.database.connection_string
    fatal_if "Failed to initialize database: %v" e
    with_pool cfg
