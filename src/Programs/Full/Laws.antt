-- ===== src/Programs/Full/Laws.antt =====
-- What the program of cmd/servfull gives back.
use servone.Prelude.{◌≡◌, refl, ap, sym, subst, ◌∙◌, String, Bool, false, some, List, [], ◌∷◌}
use servone.Value.{Result, ok, err}
use servone.World.{
  World, Action, ◌>>=◌, ◌>>◌, and_then, deferring, returned, log_printf, log_error, spawn,
  serve_http, get_db_pool,
}
use servone.Config.{Config, load_config}
use servone.Kafka.Publisher.{PublisherInterface, kafka_publisher}
use servone.Mqtt.{Broker, new_mqtt_client, subscribe, disconnect}
use servone.Coap.Server.{CoapServer, new_coap_server}
use servone.Coap.Server as Coap
use servone.Coap.Server.Laws.{new_coap_server_lem, new_coap_server-Logs}
use servone.Snmp.Client.{new_snmp_client}
use servone.Snmp.Scheduler.{start_walk_scheduler, close_stop}
use servone.Snmp.Scheduler as Scheduler
use servone.Snmp.Trap.{TrapServer, new_trap_server, start_trap_server, stop_trap_server}
use servone.Server.Routes.{DynamicServer, new_dynamic_server}
use servone.Server.Routes.Laws.{new_dynamic_server_lem, new_dynamic_server-Logs, fresh_server}
use servone.Server.Lifecycle.{shut_down}
use servone.Programs.Host.{Host, or_fatal, fatal_if, reloadable_server, reloadable_coap}
use servone.Programs.Full.{serve, watch, with_traps, with_mqtt, with_publisher, with_pool, main}
use servone.Programs.Full.Services.{
  CanStop, stop-Ends, is_open, start_trap_server-is_open, stop_trap_server-Gives,
  start_trap_server-Ends, start_walk_scheduler-Ends, disconnect-Gives, subscribe-Ends,
  new_mqtt_client-Ends,
}
use servone.Programs.Releases.{
  pool, kafka, mqtt, traps, watcher, http, Part, always, only_if, if_up, Gives, Ends, returns,
  Ends-after, Ends-and_then, Ends-deferring, Ends-deferring_logs,
}
use servone.Programs.Releases.Steps.{Logs-Ends, or_fatal-Ends, fatal_if-Ends}
use servone.Programs.Releases.Shared.{Finishes, pooled-Ends, publisher_closed-Ends, main-Finishes}
use servone.Programs.Releases.Watched.{shut_down-Ends, watched-Ends}

-- The wait for the signal ends, what the goroutines do until then gives nothing back, and they
-- leave a CoAP server that can be stopped.
abbrev pub Waits : (CoapServer → Action CoapServer) → Type 0
Waits wait =
    (cs : CoapServer) (w : World)
    → ((cs' : CoapServer) × ((wait cs w).0 ≡ returned cs'))
      × ((cs' : CoapServer) → (wait cs w).0 ≡ returned cs' → CanStop cs')
      × Gives [] w (wait cs w).1

-- What the parts of `main` give back.
abbrev watching : List Part
watching = always watcher ∷ always http ∷ []

abbrev trapping : Bool → List Part
trapping enabled = only_if enabled traps ∷ watching

abbrev serving : Broker → Bool → List Part
serving broker enabled = if_up broker.is_connected mqtt ∷ trapping enabled

-- Whether the configuration enables the trap listener.
abbrev pub traps_enabled : Result Config → Bool
traps_enabled (ok cfg) = cfg.snmptrap.enabled
traps_enabled (err e) = false

module _ (T : Type 0) (host : Host) (broker : Broker) (wait : CoapServer → Action CoapServer)
    (waits : Waits wait) where
  -- After the signal.
  at_signal-Ends :
      (at_signal : CoapServer) (server : DynamicServer T) (w : World)
      → CanStop at_signal
      → Ends (always http ∷ []) w (
          (do
            log_printf "Shutting down server..."
            stopped ← Coap.stop at_signal
            e ← shut_down host.http server
            log_error "Server shutdown error: %v" e
            log_printf "All services stopped successfully")
            w)
  unfolding log_printf
  at_signal-Ends at_signal server w fine =
      let logging = (log_printf "Shutting down server..." w).1 in
      let stopping = Coap.stop at_signal logging in
      Ends-after (always http ∷ []) w logging _ (refl, ([], refl, refl))
        (Ends-and_then (always http ∷ []) logging stopping _ (stop-Ends at_signal logging fine)
          (λ _ _ _.
            shut_down-Ends T host.http server "All services stopped successfully" stopping.1))

  serve-Ends :
      (cs : CoapServer) (server : DynamicServer T) (w : World)
      → Ends (always http ∷ []) w (serve T host broker wait cs server w)
  unfolding serve spawn
  serve-Ends cs server w =
      let started = (spawn serve_http w).1 in
      let ((at_signal, returned_it), fine, given) = waits cs started in
      Ends-after (always http ∷ []) w started _ (refl, ([], refl, refl))
        (Ends-and_then (always http ∷ []) started (wait cs started) _
          (returns at_signal returned_it given)
          (λ cs' returned_cs _.
            at_signal-Ends cs' server (wait cs started).1 (fine cs' returned_cs)))

  watch-Ends :
      (cs : CoapServer) (server : DynamicServer T) (w : World)
      → Ends watching w (watch T host broker wait cs server w)
  unfolding watch
  watch-Ends cs server w =
      watched-Ends host.fs (always http ∷ []) "config.yaml"
        (some (reloadable_server host.go server) ∷ some (reloadable_coap host.go cs) ∷ [])
        (serve T host broker wait cs server) w (λ v _. serve-Ends cs server v)

  -- Once the trap server is started.
  trapped-Ends :
      (enabled : Bool) (cfg : Config) (publisher : PublisherInterface) (cs : CoapServer)
      (ts : TrapServer) (w : World)
      → is_open ts.listener ≡ enabled
      → Ends (trapping enabled) w (
          deferring
            (stop_trap_server ts)
            (new_dynamic_server host.go cfg (some publisher) >>= watch T host broker wait cs)
            w)
  trapped-Ends enabled cfg publisher cs ts w has =
      let made = new_dynamic_server host.go cfg (some publisher) w in
      Ends-deferring (only_if enabled traps) watching w (stop_trap_server ts)
        (and_then made (watch T host broker wait cs))
        (Ends-and_then watching w made (watch T host broker wait cs)
          (Logs-Ends w made (fresh_server host.go cfg (some publisher))
            (new_dynamic_server_lem host.go cfg (some publisher) w)
            (new_dynamic_server-Logs host.go T cfg (some publisher) w))
          (λ server _ _. watch-Ends cs server made.1))
        (λ v _.
          subst (λ b. Gives (only_if b traps ∷ []) v (stop_trap_server ts v).1) has
            (stop_trap_server-Gives ts v))

  with_traps-Ends :
      (enabled : Bool) (cfg : Config) (publisher : PublisherInterface) (cs : CoapServer) (w : World)
      → cfg.snmptrap.enabled ≡ enabled
      → Ends (trapping enabled) w (with_traps T host broker wait cfg publisher cs w)
  unfolding with_traps get_db_pool
  with_traps-Ends enabled cfg publisher cs w h =
      let ts = new_trap_server cfg.snmptrap (some publisher) w.db_pool in
      let started = start_trap_server ts w in
      Ends-and_then (trapping enabled) w started _ (start_trap_server-Ends ts w)
        (λ (ts', e) returned_it _.
          let checked = fatal_if "Failed to start SNMP trap server: %v" e started.1 in
          Ends-and_then (trapping enabled) started.1 checked _
            (fatal_if-Ends "Failed to start SNMP trap server: %v" e started.1)
            (λ _ _ _. trapped-Ends enabled cfg publisher cs ts' checked.1 (
              start_trap_server-is_open cfg.snmptrap (some publisher) w.db_pool w returned_it ∙ h)))

  with_mqtt-Ends :
      (enabled : Bool) (cfg : Config) (publisher : PublisherInterface) (w : World)
      → cfg.snmptrap.enabled ≡ enabled
      → Ends (trapping enabled) w (with_mqtt T host broker wait cfg publisher w)
  unfolding with_mqtt get_db_pool Scheduler.stop close_stop log_printf
  with_mqtt-Ends enabled cfg publisher w h =
      let subscribing = subscribe broker "#" w in
      Ends-and_then (trapping enabled) w subscribing _ (subscribe-Ends broker "#" w) (λ e _ _.
        let checked = fatal_if "Failed to subscribe to MQTT topics: %v" e subscribing.1 in
        Ends-and_then (trapping enabled) subscribing.1 checked _
          (fatal_if-Ends "Failed to subscribe to MQTT topics: %v" e subscribing.1)
          (λ _ _ _.
            let made = new_coap_server host.go cfg (some publisher) checked.1 in
            Ends-and_then (trapping enabled) checked.1 made _
              (Logs-Ends checked.1 made _
                (new_coap_server_lem host.go cfg (some publisher) checked.1)
                (new_coap_server-Logs host.go cfg (some publisher) checked.1))
              (λ cs _ _.
                let client = new_snmp_client cfg.snmp made.1.db_pool (some publisher) in
                let started = start_walk_scheduler client made.1 in
                Ends-and_then (trapping enabled) made.1 started _
                  (start_walk_scheduler-Ends client made.1)
                  (λ _ _ _.
                    Ends-deferring_logs (trapping enabled) started.1 (Scheduler.stop false)
                      (with_traps T host broker wait cfg publisher cs started.1)
                      (with_traps-Ends enabled cfg publisher cs started.1 h) (λ v. (refl, refl))))))

  -- Once the MQTT client is connected.
  disconnecting-Ends :
      (enabled : Bool) (cfg : Config) (publisher : PublisherInterface) (w : World)
      → cfg.snmptrap.enabled ≡ enabled
      → Ends
          (serving broker enabled)
          w
          (deferring (disconnect broker) (with_mqtt T host broker wait cfg publisher) w)
  disconnecting-Ends enabled cfg publisher w h =
      Ends-deferring (if_up broker.is_connected mqtt) (trapping enabled) w (disconnect broker)
        (with_mqtt T host broker wait cfg publisher w) (with_mqtt-Ends enabled cfg publisher w h)
        (λ v _. disconnect-Gives broker v)

  with_publisher-Ends :
      (enabled : Bool) (cfg : Config) (w : World)
      → cfg.snmptrap.enabled ≡ enabled
      → Ends
          (always kafka ∷ serving broker enabled)
          w
          (with_publisher T host broker wait cfg (kafka_publisher host.env) w)
  unfolding with_publisher
  with_publisher-Ends enabled cfg w h =
      let publisher = kafka_publisher host.env in
      let made = new_mqtt_client broker cfg.mqtt.broker cfg.mqtt.client_id (some publisher) w in
      let format : String = "Failed to create MQTT client: %v" in
      publisher_closed-Ends host.env (serving broker enabled)
        (do
          client ← new_mqtt_client broker cfg.mqtt.broker cfg.mqtt.client_id (some publisher)
          connection ← or_fatal format client
          deferring (disconnect broker) (with_mqtt T host broker wait cfg publisher))
        w
        (Ends-and_then (serving broker enabled) w made _
          (new_mqtt_client-Ends broker cfg.mqtt.broker cfg.mqtt.client_id (some publisher) w)
          (λ client _ _.
            let checked = or_fatal format client made.1 in
            Ends-and_then (serving broker enabled) made.1 checked _
              (or_fatal-Ends format client made.1)
              (λ _ _ _. disconnecting-Ends enabled cfg publisher checked.1 h)))

  -- Where the wait for the signal returns, gives nothing back and leaves a CoAP server that can be
  -- stopped, `main` returns, having shut the HTTP server down and then closed the watcher, the trap
  -- listener exactly if the configuration enables traps, the connection to the broker if the client
  -- says that it is connected, and not if it says that it is not, the publisher and the pool, each
  -- once and in this order, or it logs a line, ends the process with status 1, and has given nothing
  -- back.
  pub full_main-Finishes :
      (w : World)
      → Finishes
          (always pool
            ∷ always kafka
            ∷ if_up broker.is_connected mqtt
            ∷ only_if (traps_enabled (load_config host.files "config.yaml")) traps
            ∷ always watcher
            ∷ always http
            ∷ [])
          w
          (main T host broker wait w)
  unfolding main with_pool
  full_main-Finishes w =
      let loading = load_config host.files "config.yaml" in
      let enabled = traps_enabled loading in
      main-Finishes host.env loading (always pool ∷ always kafka ∷ serving broker enabled)
        (with_pool T host broker wait) w
        (λ cfg p v loaded is_open.
          pooled-Ends host.env (always kafka ∷ serving broker enabled) host.new_client
            cfg.kafka.brokers p (with_publisher T host broker wait cfg) v is_open
            (λ u _. with_publisher-Ends enabled cfg u (ap traps_enabled (sym loaded))))
