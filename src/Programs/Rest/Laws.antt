-- ===== src/Programs/Rest/Laws.antt =====
-- What the program of cmd/servrest gives back.
use servone.Prelude.{◌≡◌, refl, String, some, [], ◌∷◌, none}
use servone.World.{World, Action, ◌>>=◌, returned, log_printf, spawn, serve_http}
use servone.Config.{Config, load_config}
use servone.Kafka.Publisher.{kafka_publisher}
use servone.Server.Routes.{DynamicServer, new_dynamic_server}
use servone.Server.Routes.Laws.{new_dynamic_server_lem, new_dynamic_server-Logs, fresh_server}
use servone.Server.Lifecycle.{shut_down}
use servone.Programs.Host.{Host, reloadable_server}
use servone.Programs.Rest.{serve, watch, with_publisher, with_pool, main}
use servone.Programs.Releases.{
  pool, kafka, watcher, http, always, Gives, Ends, returns, Ends-after, Ends-and_then,
}
use servone.Programs.Releases.Steps.{Logs-Ends}
use servone.Programs.Releases.Shared.{Finishes, pooled-Ends, publisher_closed-Ends, main-Finishes}
use servone.Programs.Releases.Watched.{shut_down-Ends, watched-Ends}

-- The wait for the signal ends, and what the goroutines do until then gives nothing back.
abbrev pub Waits : Action Unit → Type 0
Waits wait = (w : World) → ((wait w).0 ≡ returned tt) × Gives [] w (wait w).1

module _ (T : Type 0) (host : Host) (wait : Action Unit) (waits : Waits wait) where
  serve-Ends :
      (server : DynamicServer T) (w : World)
      → Ends (always http ∷ []) w (serve T host wait server w)
  unfolding serve spawn log_printf shut_down
  serve-Ends server w =
      let started = (spawn serve_http w).1 in
      let (returns_tt, given) = waits started in
      let at_signal = (wait started).1 in
      let line : String = "Shutting down REST API server..." in
      let logging = (log_printf line at_signal).1 in
      Ends-after (always http ∷ []) w started _ (refl, ([], refl, refl))
        (Ends-and_then (always http ∷ []) started (wait started) _ (returns tt returns_tt given)
          (λ _ _ _.
            Ends-after (always http ∷ []) at_signal logging _ (refl, ([], refl, refl))
              (shut_down-Ends T host.http server "REST API server stopped successfully" logging)))

  watch-Ends :
      (server : DynamicServer T) (w : World)
      → Ends (always watcher ∷ always http ∷ []) w (watch T host wait server w)
  unfolding watch
  watch-Ends server w =
      watched-Ends host.fs (always http ∷ []) "config.yaml"
        (some (reloadable_server host.go server) ∷ none ∷ []) (serve T host wait server) w
        (λ v _. serve-Ends server v)

  with_publisher-Ends :
      (cfg : Config) (w : World)
      → Ends
          (always kafka ∷ always watcher ∷ always http ∷ [])
          w
          (with_publisher T host wait cfg (kafka_publisher host.env) w)
  unfolding with_publisher
  with_publisher-Ends cfg w =
      let publisher = kafka_publisher host.env in
      let made = new_dynamic_server host.go cfg (some publisher) w in
      publisher_closed-Ends host.env (always watcher ∷ always http ∷ [])
        (new_dynamic_server host.go cfg (some publisher) >>= watch T host wait) w
        (Ends-and_then (always watcher ∷ always http ∷ []) w made (watch T host wait)
          (Logs-Ends w made (fresh_server host.go cfg (some publisher))
            (new_dynamic_server_lem host.go cfg (some publisher) w)
            (new_dynamic_server-Logs host.go T cfg (some publisher) w))
          (λ server _ _. watch-Ends server made.1))

  -- Where the wait for the signal returns and gives nothing back, `main` returns, having shut the
  -- HTTP server down and then closed the watcher, the publisher and the pool, each once and in this
  -- order, or it logs a line, ends the process with status 1, and has given nothing back.
  pub rest_main-Finishes :
      (w : World)
      → Finishes
          (always pool ∷ always kafka ∷ always watcher ∷ always http ∷ [])
          w
          (main T host wait w)
  unfolding main with_pool
  rest_main-Finishes w =
      main-Finishes host.env (load_config host.files "config.yaml")
        (always pool ∷ always kafka ∷ always watcher ∷ always http ∷ []) (with_pool T host wait) w
        (λ cfg p v _ is_open.
          pooled-Ends host.env (always kafka ∷ always watcher ∷ always http ∷ []) host.new_client
            cfg.kafka.brokers p (with_publisher T host wait cfg) v is_open
            (λ u _. with_publisher-Ends cfg u))
