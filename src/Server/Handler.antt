-- ===== src/Server/Handler.antt =====
-- `createHandler` of server/server.go: one request to an endpoint.
pub mod Parts
pub mod Laws
pub mod Stored
pub mod Headers
use servone.Prelude.{
  ℕ, String, Bool, true, false, ◌&&◌, not, Option, none, some, List, [], ◌∷◌, str_eq, if◌then◌else◌,
}
use servone.Prelude.Text.{has_prefix}
use servone.Value.{Result, ok, err, text, object, Fields, end, StringMap, put}
use servone.World.{
  Env, Action, ◌>>=◌, ◌>>◌, done, log_printf, log_error, get_db_pool, spawn, save_request,
}
use servone.Config.{EndpointConfig}
use servone.Go.{Go}
use servone.Http.{
  Body, Request, ResponseWriter, read_limited, set_header, write_header, write, http_error,
}
use servone.Kafka.Publisher.{PublisherInterface}
use servone.Db.Global.{save_to_db_with_error}
use servone.Template.{Templates}
use servone.Server.Template.{Cache, process_template}
use servone.Server.Routes.{DynamicServer}
use servone.Snmp.Results.{PduText}
use servone.Snmp.Client.{Agents, SnmpClient}
use servone.Snmp.Handler.{handle_snmp_request}

-- The response so far, and the template cache.
pub record Served (T : Type 0) : Type 0 where
  pub writer : ResponseWriter
  pub templates : Cache T

-- The goroutine of a request.
unfoldable pub run_save_request :
    Env → Option PublisherInterface → String → Fields → StringMap → Action Unit
unfolding get_db_pool log_error
run_save_request env publisher url data_map params = do
  pool ← get_db_pool
  elim pool [
    | none ↦ done tt
    | some p ↦ do
      e ← save_to_db_with_error env url data_map params publisher
      log_error "Failed to save to database: %v" e
  ]

-- 10 MB, in bytes.
abbrev pub body_limit : ℕ
body_limit = 10485760

-- `bodyBytes`: nil for a nil body, `none` where reading fails.
unfoldable pub read_body : Option Body → Option String
read_body none = some ""
read_body (some b) = read_limited body_limit b

-- `r.Body` after it was read and restored.
restore : Option Body → String → Option Body
restore none content = none
restore (some b) content = some (record b { content = content; broken = false })

-- The operation of an endpoint of `/api/snmp/` at a POST, if it is one of the two known.
unfoldable pub snmp_operation : String → String → Option String
unfolding has_prefix
snmp_operation path method =
    if has_prefix path "/api/snmp/" && str_eq method "POST"
    then (if str_eq path "/api/snmp/get"
        then some "get"
        else (if str_eq path "/api/snmp/walk" then some "walk" else none))
    else none

-- The loop that adds the path variables to `logPayload`.
add_log_vars : StringMap → Fields → Fields
add_log_vars [] payload = payload
add_log_vars ((k, v) ∷ vars) payload = add_log_vars vars (put k (text v) payload)

module _ {T : Type 0} (go : Go) (templates : Templates T) (agents : Agents) (print : PduText)
    (env : Env) where
  log_payload : Result String → Action Unit
  unfolding log_printf
  log_payload (ok line) = log_printf "Request Log: %s"
  log_payload (err e) = done tt

  -- A POST with a body: log it, and start the goroutine if it is JSON.
  posted : EndpointConfig → StringMap → Result Fields → Action Unit
  unfolding log_payload log_printf spawn add_log_vars put
  posted endpoint vars (ok json_data) = do
    log_payload (
        env.marshal (
          object (
            add_log_vars vars
              (put "data" (object json_data) (put "url" (text endpoint.path) end)))))
    spawn (save_request endpoint.path json_data vars)
  posted endpoint vars (err e) = log_printf "%s %s - %d | Request body: %s"

  -- The request's log line, and the goroutine of a JSON POST.
  unfoldable pub log_and_save : EndpointConfig → String → StringMap → String → Action Unit
  unfolding posted log_printf
  log_and_save endpoint method vars content =
      if str_eq method "POST" && not (str_eq content "")
      then posted endpoint vars (env.unmarshal content)
      else (if not (str_eq content "")
          then log_printf "%s %s - %d | Request body: %s"
          else log_printf "%s %s - %d")

  -- `for key, value := range endpoint.Response.Headers`.
  unfoldable pub set_headers : StringMap → ResponseWriter → ResponseWriter
  unfolding set_header
  set_headers [] w = w
  set_headers ((key, value) ∷ headers) w =
      set_headers headers (set_header go.canonical_header_key key value w)

  -- The configured response.
  pub respond : DynamicServer T → EndpointConfig → ResponseWriter → StringMap → Action (Served T)
  unfolding set_headers write_header write process_template
  respond ds endpoint w vars = do
    sent ←
        write_header go.canonical_header_key endpoint.response.status
          (set_headers endpoint.response.headers w)
    (out, cache) ← process_template go templates env endpoint.response.body vars ds.templates
    done (record { writer = write go.canonical_header_key out sent; templates = cache })

  -- After the body is read: an SNMP operation, or the configured response.
  served :
      DynamicServer T
      → Option SnmpClient
      → EndpointConfig
      → ResponseWriter
      → Request
      → String
      → Option String
      → Action (Served T)
  unfolding handle_snmp_request log_and_save respond restore
  served ds client endpoint w r content (some operation) = do
    w' ←
        handle_snmp_request go.canonical_header_key agents print env client w
          (restore r.body content) operation
    done (record { writer = w'; templates = ds.templates })
  served ds client endpoint w r content none = do
    log_and_save endpoint r.method r.vars content
    respond ds endpoint w r.vars

  with_content :
      DynamicServer T
      → Option SnmpClient
      → EndpointConfig
      → ResponseWriter
      → Request
      → Option String
      → Action (Served T)
  unfolding served http_error snmp_operation
  with_content ds client endpoint w r none = done (record {
    writer = http_error go.canonical_header_key "Request body too large" 413 w;
    templates = ds.templates;
  })
  with_content ds client endpoint w r (some content) =
      served ds client endpoint w r content (snmp_operation endpoint.path r.method)

  -- The handler of an endpoint.
  unfoldable pub handle :
      DynamicServer T
      → Option SnmpClient
      → EndpointConfig
      → ResponseWriter
      → Request
      → Action (Served T)
  unfolding with_content read_body
  handle ds client endpoint w r = with_content ds client endpoint w r (read_body r.body)
