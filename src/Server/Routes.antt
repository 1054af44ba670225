-- ===== src/Server/Routes.antt =====
-- `DynamicServer` of server/server.go: its routes, its construction and its reload.
pub mod Laws
use servone.Prelude.{String, Option, none, some, List, [], ◌∷◌, ◌++◌}
use servone.Prelude.Text.{◌<>◌}
use servone.Value.{StringMap}
use servone.World.{Action, ◌>>=◌, ◌>>◌, done, log_printf}
use servone.Go.{Go, to_upper}
use servone.Config.{Config, EndpointConfig}
use servone.Kafka.Publisher.{PublisherInterface}
use servone.Server.Template.{Cache}

-- What a route runs: the handler of an endpoint, or that of Prometheus.
pub data Target : Type 0 where
  endpoint_target : EndpointConfig → Target
  metrics_target : Target

pub record Route : Type 0 where
  pub path : String
  pub method : String
  pub target : Target

-- `*mux.Router`: its routes in the order of registration.
abbrev pub Router : Type 0
Router = List Route

-- `DynamicServer`; `addr` and `handler` are those of the field `server`.
pub record DynamicServer (T : Type 0) : Type 0 where
  pub config : Config
  pub router : Router
  pub addr : String
  pub handler : Router
  pub path_vars : StringMap
  pub publisher : Option PublisherInterface
  pub templates : Cache T

module _ (go : Go) where
  -- The route of an endpoint.
  unfoldable pub route_of : EndpointConfig → Route
  unfolding to_upper
  route_of endpoint = record {
    path = endpoint.path;
    method = to_upper go endpoint.method;
    target = endpoint_target endpoint;
  }

  -- `addRoute`, on the router.
  unfoldable pub add_route : Router → EndpointConfig → Action Router
  unfolding route_of log_printf
  add_route router endpoint = do
    log_printf "Added route: %s %s"
    done (router ++ route_of endpoint ∷ [])

  add_routes : Router → List EndpointConfig → Action Router
  unfolding add_route
  add_routes router [] = done router
  add_routes router (endpoint ∷ endpoints) = do
    router' ← add_route router endpoint
    add_routes router' endpoints

  abbrev pub metrics_route : Route
  metrics_route = record { path = "/metrics"; method = "GET"; target = metrics_target }

  -- `setupRoutes`, on the router.
  unfoldable pub setup_routes : Router → Config → Action Router
  unfolding add_routes log_printf
  setup_routes router config = do
    router' ← add_routes router config.rest.endpoints
    log_printf "Added route: GET /metrics"
    done (router' ++ metrics_route ∷ [])

  unfoldable pub new_dynamic_server :
      {T : Type 0} → Config → Option PublisherInterface → Action (DynamicServer T)
  unfolding setup_routes
  new_dynamic_server cfg publisher = do
    router ← setup_routes [] cfg
    done (record {
      config = cfg;
      router = router;
      addr = cfg.rest.host <> (":" <> cfg.rest.port);
      handler = router;
      path_vars = [];
      publisher = publisher;
      templates = [];
    })

  -- `Reload`; the locks are held throughout.
  unfoldable pub reload : {T : Type 0} → Config → DynamicServer T → Action (DynamicServer T)
  unfolding setup_routes log_printf
  reload new_config ds = do
    log_printf "Reloading server configuration..."
    router ← setup_routes [] new_config
    log_printf "Server configuration reloaded successfully"
    done (record ds {
      config = new_config;
      router = router;
      handler = router;
      path_vars = [];
      templates = [];
    })
