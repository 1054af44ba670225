-- ===== src/Coap/Server/Laws.antt =====
-- What stopping, reloading and listening come to.
use servone.Prelude.{
  ◌≡◌, refl, ap, ◌∙◌, inl, inr, true, false, none, Option, List, [], ◌∷◌, ◌++◌, map, arith,
  Bool-cases,
}
use servone.World.{World, record_event, logged, log_printf, returned, Outcome, and_then, ◌>>◌, done}
use servone.Trace.{Logs, Logs-trans, Logs-and_then}
use servone.World.Laws.{and_then_returned}
use servone.Go.{Go}
use servone.Config.{Config, EndpointConfig}
use servone.Kafka.Publisher.{PublisherInterface}
use servone.Coap.Server.{
  CoapRouter, CoapServer, route_of, setup_routes, restart, reload, new_coap_server,
  fresh_coap_server, start, close_stop_chan, stop, Listeners, constructed, Step, begins, serves,
  ends, stops_to_reload, restarts, Steps, rests, steps,
}
use mathlib.Core.List.{append_assoc, append-nil}

module _ (go : Go) where
  setup_routes_lem :
      (router : CoapRouter) (endpoints : List EndpointConfig) (w : World)
      → (setup_routes go router endpoints w).0 ≡ returned (router ++ map (route_of go) endpoints)
  unfolding setup_routes
  setup_routes_lem router [] w = rw append-nil
  setup_routes_lem router (endpoint ∷ endpoints) w =
      setup_routes_lem (router ++ route_of go endpoint ∷ []) endpoints _ ∙ rw append_assoc

  -- The routes are set up, and the server is started.
  starts :
      (config : Config) (f : CoapRouter → CoapServer) (u : World)
      → (and_then
          (setup_routes go [] config.coap.endpoints u)
          (λ router. start (f router) >> done (f router))).0
        ≡ returned (f (map (route_of go) config.coap.endpoints))
  unfolding start
  starts config f u =
      ap (λ (r : Outcome CoapServer × World). r.0)
        (and_then_returned (setup_routes go [] config.coap.endpoints u) _ _
          (setup_routes_lem [] config.coap.endpoints u))

  -- Unless it listens with its channel closed, a reload leaves the server as `NewCoapServer` makes
  -- it of the new configuration, not listening yet, with the routes of its endpoints in their order.
  pub coap_reload_eq_new :
      (config : Config) (cs : CoapServer) (w v : World)
      → (cs.listening ≡ true → cs.stop_closed ≡ true → ⊥)
      → (cs' : CoapServer) × (cs'.router ≡ map (route_of go) config.coap.endpoints)
        × ((new_coap_server go config cs.publisher v).0 ≡ returned cs')
        × ((reload go config cs w).0 ≡ returned cs')
  unfolding reload restart new_coap_server
  coap_reload_eq_new config cs w v fine = elim (Bool-cases cs.listening) [
    | inr quiet ↦ rw quiet (
      _,
      refl,
      starts config (fresh_coap_server config cs.publisher) v,
      starts config (fresh_coap_server config cs.publisher) _,
    )
    | inl listens ↦ elim (Bool-cases cs.stop_closed) [
      | inl closed ↦ elim (fine listens closed) [ ]
      | inr is_open ↦
          rw (listens, is_open)
            (
              _,
              refl,
              starts config (fresh_coap_server config cs.publisher) v,
              starts config (fresh_coap_server config cs.publisher) _,
            )
    ]
  ]

  setup_routes-Logs :
      (router : CoapRouter) (endpoints : List EndpointConfig) (w : World)
      → Logs w (setup_routes go router endpoints w).1
  unfolding setup_routes
  setup_routes-Logs router [] w = (refl, ([], tt, refl))
  setup_routes-Logs router (endpoint ∷ endpoints) w =
      let line = record_event (logged "Added CoAP route: %s %s") w in
      Logs-trans w line (setup_routes go (router ++ route_of go endpoint ∷ []) endpoints line).1
        (refl, (logged "Added CoAP route: %s %s" ∷ [], (tt, tt), refl))
        (setup_routes-Logs (router ++ route_of go endpoint ∷ []) endpoints line)

  pub new_coap_server_lem :
      (config : Config) (publisher : Option PublisherInterface) (w : World)
      → (new_coap_server go config publisher w).0
        ≡ returned (fresh_coap_server config publisher (map (route_of go) config.coap.endpoints))
  unfolding new_coap_server
  new_coap_server_lem config publisher w = starts config (fresh_coap_server config publisher) w

  pub new_coap_server-Logs :
      (config : Config) (publisher : Option PublisherInterface) (w : World)
      → Logs w (new_coap_server go config publisher w).1
  unfolding new_coap_server start
  new_coap_server-Logs config publisher w =
      Logs-and_then w (setup_routes go [] config.coap.endpoints w) _ _
        (setup_routes_lem [] config.coap.endpoints w) (setup_routes-Logs [] config.coap.endpoints w)
        (refl, ([], tt, refl))

  restart_lem :
      (config : Config) (cs : CoapServer) (w : World)
      → (restart go config cs w).0
        ≡ returned (record cs {
          config = config;
          router = map (route_of go) config.coap.endpoints;
          stop_closed = false;
        })
  unfolding restart
  restart_lem config cs w =
      starts config (λ router. record cs { config = config; router = router; stop_closed = false })
        w

  -- While no `Reload` is under way, the channel is open.
  abbrev IsOpen : Listeners → Type 0
  IsOpen s = s.reloading ≡ none → s.server.stop_closed ≡ false

  Step-IsOpen : {s t : Listeners} → Step go s t → IsOpen s → IsOpen t
  Step-IsOpen (begins before after a h) fine = fine
  Step-IsOpen (serves before after a h) fine = fine
  Step-IsOpen (ends before after a router h) fine = fine
  Step-IsOpen (stops_to_reload config w w' h stopping) fine = λ none_left. cc
  Step-IsOpen {s} (restarts {config} w w' h restarting) fine =
      λ none_left. ground (arith, restart_lem config s.server w, restarting)

  Steps-IsOpen : {s t : Listeners} → Steps go s t → IsOpen s → IsOpen t
  Steps-IsOpen rests fine = fine
  Steps-IsOpen (steps one more) fine = Steps-IsOpen more (Step-IsOpen one fine)

  stop_open :
      (cs : CoapServer) (w : World)
      → cs.stop_closed ≡ false
      → (cs' : CoapServer) × ((stop cs w).0 ≡ returned cs') × (cs'.listening ≡ false)
  unfolding stop close_stop_chan log_printf
  stop_open cs w is_open = elim (Bool-cases cs.listening) [
    | inr quiet ↦ rw quiet (_, refl, refl)
    | inl listens ↦ rw (listens, is_open) (_, refl, refl)
  ]

  -- From `NewCoapServer` on, however its goroutines begin, listen and end and however often it is
  -- reloaded meanwhile: at any time when no `Reload` is under way, `Stop` does not close a closed
  -- channel: it returns, and the server does not listen; and `Reload` returns too.
  pub stop_returns :
      (config : Config) (publisher : Option PublisherInterface) (w₀ : World) {cs : CoapServer}
      {s : Listeners}
      → (new_coap_server go config publisher w₀).0 ≡ returned cs
      → Steps go (constructed cs) s
      → s.reloading ≡ none
      → (new_config : Config) (w : World)
      → ((cs' : CoapServer) × ((stop s.server w).0 ≡ returned cs') × (cs'.listening ≡ false))
        × ((cs' : CoapServer) × ((reload go new_config s.server w).0 ≡ returned cs'))
  stop_returns config publisher w₀ {cs} {s} made before idle new_config w =
      let is_open : s.server.stop_closed ≡ false =
        Steps-IsOpen before (λ _. ground (arith, new_coap_server_lem config publisher w₀, made))
          idle in
      let (cs', routes, fresh, reloaded) =
        coap_reload_eq_new new_config s.server w w (λ _ closed. cc (is_open, closed)) in
      (stop_open s.server w is_open, (cs', reloaded))
