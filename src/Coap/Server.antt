-- ===== src/Coap/Server.antt =====
-- `CoapServer` of coap/coap.go: its routes, its construction, stop and reload, and its listeners.
pub mod Laws
use servone.Prelude.{
  ℕ, String, ◌≡◌, Bool, true, false, Option, none, some, List, [], ◌∷◌, ◌++◌, str_eq, if◌then◌else◌,
}
use servone.Prelude.Text.{◌<>◌}
use servone.World.{
  World, Outcome, returned, Action, ◌>>=◌, ◌>>◌, done, panic, log_printf, spawn, coap_listen,
}
use servone.Go.{Go, to_upper}
use servone.Config.{Config, EndpointConfig}
use servone.Kafka.Publisher.{PublisherInterface}

-- A path and what `createHandler` is given.
pub record CoapRoute : Type 0 where
  pub path : String
  pub endpoint : EndpointConfig
  pub method : String

-- `*mux.Router`: the registrations in their order.
abbrev pub CoapRouter : Type 0
CoapRouter = List CoapRoute

-- `CoapServer`; `stop_closed` tells whether the channel `stopChan` is closed.
pub record CoapServer : Type 0 where
  pub config : Config
  pub router : CoapRouter
  pub publisher : Option PublisherInterface
  pub stop_closed : Bool
  pub listening : Bool

-- The literal of `NewCoapServer`, with the routes that are set up next.
abbrev fresh_coap_server : Config → Option PublisherInterface → CoapRouter → CoapServer
fresh_coap_server cfg publisher router = record {
  config = cfg;
  router = router;
  publisher = publisher;
  stop_closed = false;
  listening = false;
}

-- The address that `start` listens on.
abbrev pub address_of : Config → String
address_of config = config.coap.host <> (":" <> config.coap.port)

-- `start`: the goroutine is `coap_listen`.
unfoldable pub start : CoapServer → Action Unit
unfolding spawn
start cs = spawn (coap_listen (address_of cs.config))

-- What `Stop` does under the lock.
unfoldable pub close_stop_chan : CoapServer → Action CoapServer
close_stop_chan cs =
    if cs.listening
    then (if cs.stop_closed
        then panic "close of closed channel"
        else done (record cs { stop_closed = true; listening = false }))
    else done cs

-- `Stop`; closing a closed channel panics.
unfoldable pub stop : CoapServer → Action CoapServer
unfolding log_printf close_stop_chan
stop cs = do log_printf "Stopping CoAP server..."; close_stop_chan cs

module _ (go : Go) where
  -- What `addRoute` registers.
  unfoldable pub route_of : EndpointConfig → CoapRoute
  unfolding to_upper
  route_of endpoint = record {
    path = endpoint.path;
    endpoint = endpoint;
    method = to_upper go endpoint.method;
  }

  -- The loop of `setupRoutes`, on the router.
  unfoldable pub setup_routes : CoapRouter → List EndpointConfig → Action CoapRouter
  unfolding route_of log_printf
  setup_routes router [] = done router
  setup_routes router (endpoint ∷ endpoints) = do
    log_printf "Added CoAP route: %s %s"
    setup_routes (router ++ route_of endpoint ∷ []) endpoints

  unfoldable pub new_coap_server : Config → Option PublisherInterface → Action CoapServer
  unfolding setup_routes start
  new_coap_server cfg publisher = do
    router ← setup_routes [] cfg.coap.endpoints
    start (fresh_coap_server cfg publisher router)
    done (fresh_coap_server cfg publisher router)

  -- `Reload` from its call of `Stop` on: the fields, a new channel, and `start`.
  unfoldable pub restart : Config → CoapServer → Action CoapServer
  unfolding setup_routes start
  restart new_config stopped = do
    router ← setup_routes [] new_config.coap.endpoints
    start (record stopped { config = new_config; router = router; stop_closed = false })
    done (record stopped { config = new_config; router = router; stop_closed = false })

  unfoldable pub reload : Config → CoapServer → Action CoapServer
  unfolding log_printf stop restart
  reload new_config cs = do
    log_printf "Reloading CoAP server..."
    stopped ← stop cs
    restart new_config stopped

-- The server with its goroutines: the addresses of those that have not begun, of those that are
-- about to listen, and of those that are in `ListenAndServe`, each of these with the router that
-- was handed to it; and the configuration of a `Reload` that is between its `Stop` and its end.
pub record Listeners : Type 0 where
  pub server : CoapServer
  pub waiting : List String
  pub binding : List String
  pub serving : List (String × CoapRouter)
  pub reloading : Option Config

-- After `NewCoapServer`.
abbrev pub constructed : CoapServer → Listeners
constructed cs = record {
  server = cs;
  waiting = address_of cs.config ∷ [];
  binding = [];
  serving = [];
  reloading = none;
}

-- One step of a goroutine of `start`, or of the watcher's goroutine, which reloads. `ListenAndServe`
-- returns when it likes, at once or never, and the channel that is asked then only decides which
-- line is logged. `Reload` is not under the lock, so other steps come between its `Stop` and the
-- rest; one `Reload` runs at a time.
pub data Step (go : Go) : Listeners → Listeners → Type 0 where
  begins :
      {s : Listeners} (before after : List String) (a : String)
      → s.waiting ≡ before ++ a ∷ after
      → Step go s (record s {
        server = record s.server { listening = true };
        waiting = before ++ after;
        binding = a ∷ s.binding;
      })
  serves :
      {s : Listeners} (before after : List String) (a : String)
      → s.binding ≡ before ++ a ∷ after
      → Step go s
          (record s { binding = before ++ after; serving = (a, s.server.router) ∷ s.serving })
  ends :
      {s : Listeners} (before after : List (String × CoapRouter)) (a : String) (router : CoapRouter)
      → s.serving ≡ before ++ (a, router) ∷ after
      → Step go s
          (record s { server = record s.server { listening = false }; serving = before ++ after })
  stops_to_reload :
      {s : Listeners} (config : Config) {cs : CoapServer} (w w' : World)
      → s.reloading ≡ none
      → stop s.server w ≡ (returned cs, w')
      → Step go s (record s { server = cs; reloading = some config })
  restarts :
      {s : Listeners} {config : Config} {cs : CoapServer} (w w' : World)
      → s.reloading ≡ some config
      → restart go config s.server w ≡ (returned cs, w')
      → Step go s
          (record s { server = cs; waiting = address_of cs.config ∷ s.waiting; reloading = none })

-- Any number of steps.
pub data Steps (go : Go) : Listeners → Listeners → Type 0 where
  rests : {s : Listeners} → Steps go s s
  steps : {s t u : Listeners} → Step go s t → Steps go t u → Steps go s u
