-- ===== src/Server/Routes/Laws.antt =====
-- The routes that a configuration gives, at the start and at a reload.
use servone.Prelude.{◌≡◌, refl, ap, ◌∙◌, Option, List, [], ◌∷◌, ◌++◌, map}
use servone.Prelude.Text.{◌<>◌}
use servone.World.{World, record_event, logged, returned}
use servone.Trace.{Logs, Logs-trans, Logs-and_then}
use servone.World.Laws.{and_then_returned}
use servone.Go.{Go}
use servone.Config.{Config, EndpointConfig}
use servone.Kafka.Publisher.{PublisherInterface}
use servone.Server.Routes.{
  Router, DynamicServer, route_of, add_routes, metrics_route, setup_routes, new_dynamic_server,
  reload,
}
use mathlib.Core.List.{append_assoc, append-nil}

-- One route for each endpoint, in the order of the configuration, and then GET /metrics.
abbrev pub routes_of : Go → Config → Router
routes_of go config = map (route_of go) config.rest.endpoints ++ metrics_route go ∷ []

module _ (go : Go) where
  add_routes_lem :
      (router : Router) (endpoints : List EndpointConfig) (w : World)
      → (add_routes go router endpoints w).0 ≡ returned (router ++ map (route_of go) endpoints)
  unfolding add_routes
  add_routes_lem router [] w = rw append-nil
  add_routes_lem router (endpoint ∷ endpoints) w =
      add_routes_lem (router ++ route_of go endpoint ∷ []) endpoints _ ∙ rw append_assoc

  setup_routes_lem :
      (config : Config) (w : World)
      → (setup_routes go [] config w).0 ≡ returned (routes_of go config)
  unfolding setup_routes
  setup_routes_lem config w =
      ap (λ r. r.0)
        (and_then_returned (add_routes go [] config.rest.endpoints w) _ _
          (add_routes_lem [] config.rest.endpoints w))

  -- The server that `NewDynamicServer` makes.
  abbrev pub fresh_server : {T : Type 0} → Config → Option PublisherInterface → DynamicServer T
  fresh_server cfg publisher = record {
    config = cfg;
    router = routes_of go cfg;
    addr = cfg.rest.host <> (":" <> cfg.rest.port);
    handler = routes_of go cfg;
    path_vars = [];
    publisher = publisher;
    templates = [];
  }

  pub new_dynamic_server_lem :
      {T : Type 0} (cfg : Config) (publisher : Option PublisherInterface) (w : World)
      → (new_dynamic_server go {T = T} cfg publisher w).0 ≡ returned (fresh_server cfg publisher)
  unfolding new_dynamic_server
  new_dynamic_server_lem cfg publisher w =
      ap (λ r. r.0) (and_then_returned (setup_routes go [] cfg w) _ _ (setup_routes_lem cfg w))

  -- Whatever the server was, a reload gives the server that `NewDynamicServer` makes of the new
  -- configuration, with the routes of its endpoints in their order and GET /metrics behind them and
  -- an empty template cache, except that the address stays what it was.
  pub reload_eq_new :
      {T : Type 0} (config : Config) (ds : DynamicServer T) (w v : World)
      → (ds' : DynamicServer T) × ((new_dynamic_server go config ds.publisher v).0 ≡ returned ds')
        × (ds'.handler ≡ routes_of go config)
        × (ds'.templates ≡ [])
        × ((reload go config ds w).0 ≡ returned (record ds' { addr = ds.addr }))
  unfolding reload
  reload_eq_new config ds w v = (
    fresh_server config ds.publisher,
    new_dynamic_server_lem config ds.publisher v,
    refl,
    refl,
    ap (λ r. r.0) (and_then_returned (setup_routes go [] config _) _ _ (setup_routes_lem config _)),
  )

-- Setting up routes only logs.
module _ (go : Go) where
  add_routes-Logs :
      (router : Router) (endpoints : List EndpointConfig) (w : World)
      → Logs w (add_routes go router endpoints w).1
  unfolding add_routes
  add_routes-Logs router [] w = (refl, ([], tt, refl))
  add_routes-Logs router (endpoint ∷ endpoints) w =
      let line = record_event (logged "Added route: %s %s") w in
      Logs-trans w line (add_routes go (router ++ route_of go endpoint ∷ []) endpoints line).1
        (refl, (logged "Added route: %s %s" ∷ [], (tt, tt), refl))
        (add_routes-Logs (router ++ route_of go endpoint ∷ []) endpoints line)

  setup_routes-Logs : (config : Config) (w : World) → Logs w (setup_routes go [] config w).1
  unfolding setup_routes
  setup_routes-Logs config w =
      Logs-and_then w (add_routes go [] config.rest.endpoints w) _ _
        (add_routes_lem go [] config.rest.endpoints w) (add_routes-Logs [] config.rest.endpoints w)
        (refl, (logged "Added route: GET /metrics" ∷ [], (tt, tt), refl))

  pub new_dynamic_server-Logs :
      (T : Type 0) (cfg : Config) (publisher : Option PublisherInterface) (w : World)
      → Logs w (new_dynamic_server go {T = T} cfg publisher w).1
  unfolding new_dynamic_server
  new_dynamic_server-Logs T cfg publisher w =
      Logs-and_then w (setup_routes go [] cfg w) _ _ (setup_routes_lem go cfg w)
        (setup_routes-Logs cfg w) (refl, ([], tt, refl))
