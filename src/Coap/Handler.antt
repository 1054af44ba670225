-- ===== src/Coap/Handler.antt =====
-- `createHandler` of coap/coap.go: one request to an endpoint.
pub mod Laws
use servone.Prelude.{
  ℕ, ◌%◌, ◌-◌, ◌==◌, String, Bool, true, false, ◌&&◌, not, Option, none, some, List, [], ◌∷◌,
  str_eq, if◌then◌else◌,
}
use servone.Prelude.Int.{ℤ, pos, negsuc}
use servone.Prelude.Text.{◌<>◌, equal_fold_ascii}
use servone.Value.{
  Error, message, Result, ok, err, int, text, object, Fields, end, field, StringMap, get_string,
}
use servone.World.{
  Env, Action, ◌>>=◌, ◌>>◌, done, panic, now, log_printf, log_error, get_db_pool, spawn, save_coap,
  Pool,
}
use servone.Config.{EndpointConfig}
use servone.Go.{Go}
use servone.Kafka.Publisher.{PublisherInterface}
use servone.Db.Global.{save_coap_message}
use servone.Template.{Templates}
use servone.Coap.Template.{process_template}

-- A CoAP code, `codes.Code` (uint16).
abbrev pub Code : Type 0
Code = ℕ

-- The codes of go-coap that the handler names, and the names of codes, `Code.String`.
pub record Codes : Type 0 where
  pub post : Code
  pub method_not_allowed : Code
  pub internal_server_error : Code
  pub code_string : Code → String

pub data MediaType : Type 0 where
  text_plain app_json : MediaType

-- `mux.Message`: a body is the text that reading it gives, or the failure to read it.
pub record Message : Type 0 where
  pub code : Code
  pub body : Option (Option String)

-- What `SetResponse` is given.
pub record Response : Type 0 where
  pub code : Code
  pub media_type : MediaType
  pub body : String

-- `codes.Code(n)` of an `int`.
unfoldable pub to_code : ℤ → Code
to_code (pos n) = n % 65536
to_code (negsuc n) = 65535 - n % 65536

-- `map[string]interface{}{"path": …, "method": …, "data": …, "received": …}`.
abbrev pub coap_payload : String → String → Fields → ℕ → Fields
coap_payload path method json_data received = field "path" (text path) (
    field "method" (text method)
      (field "data" (object json_data) (field "received" (int (pos received)) end)))

module _ (env : Env) where
  save_if_open : Option Pool → String → String → String → ℕ → Action Unit
  unfolding save_coap_message log_error
  save_if_open none path method payload received = done tt
  save_if_open (some p) path method payload received = do
    e ← save_coap_message env path payload method received
    log_error "Failed to save CoAP message to database: %v" e

  publish_coap : Option PublisherInterface → String → Fields → Action Unit
  unfolding log_error
  publish_coap none path payload = panic "nil pointer dereference"
  publish_coap (some publisher) path payload = do
    e ← publisher.publish ("coap" <> path) payload
    log_error "Failed to publish CoAP message to Kafka: %v" e

  -- The goroutine of a POST: save if `DbPool` is open, and publish in any case. It reads
  -- `r.Code().String()` twice, for the row and for the record, and mostly after the handler has
  -- returned, when go-coap may use the message again: `method` and `method'` are what it reads.
  unfoldable pub run_save_coap :
      Option PublisherInterface → String → String → String → String → Fields → Action Unit
  unfolding now get_db_pool save_if_open publish_coap
  run_save_coap publisher path method method' payload json_data = do
    received ← now env
    pool ← get_db_pool
    save_if_open pool path method payload received
    publish_coap publisher path (coap_payload path method' json_data received)

-- `jsonData`: the JSON object, or the raw text under "coapbody".
unfoldable pub json_or_raw : String → Result Fields → Fields
json_or_raw content (ok json_data) = json_data
json_or_raw content (err e) = field "coapbody" (text content) end

-- The media type of the response, from the configured headers.
unfoldable pub media_type_of : StringMap → MediaType
unfolding get_string equal_fold_ascii
media_type_of headers = elim (get_string "Content-Type" headers) [
  | none ↦ text_plain
  | some content_type ↦
      if equal_fold_ascii content_type "application/json" then app_json else text_plain
]

module _ {T : Type 0} (go : Go) (templates : Templates T) (codes : Codes) (env : Env) where
  plain : Code → String → Response
  plain code reason = record { code = code; media_type = text_plain; body = reason }

  log_and_save : EndpointConfig → Code → String → Action Unit
  unfolding log_printf spawn json_or_raw
  log_and_save endpoint code content =
      if code == codes.post && not (str_eq content "")
      then (do
        log_printf "CoAP Request Log: %s"
        spawn (save_coap endpoint.path content (json_or_raw content (env.unmarshal content))))
      else (if not (str_eq content "")
          then log_printf "CoAP %s %s - %d | Request body: %s"
          else log_printf "CoAP %s %s - %d")

  with_content : EndpointConfig → Code → Option String → Action (Option Response)
  unfolding log_printf plain log_and_save process_template media_type_of to_code
  with_content endpoint code none = do
    log_printf "Cannot read body: %v"
    done (some (plain codes.internal_server_error "Cannot read body"))
  with_content endpoint code (some content) = do
    log_and_save endpoint code content
    out ← process_template go templates env endpoint.response.body []
    done (
        some (record {
          code = to_code endpoint.response.status;
          media_type = media_type_of endpoint.response.headers;
          body = out;
        }))

  with_body : EndpointConfig → Code → Option (Option String) → Action (Option Response)
  unfolding log_printf with_content
  with_body endpoint code none = do log_printf "CoAP %s %s - %d | No request body"; done none
  with_body endpoint code (some content) = with_content endpoint code content

  -- The handler of an endpoint that was registered for a method: the response, if one is set.
  unfoldable pub handle : EndpointConfig → String → Message → Action (Option Response)
  unfolding with_body plain
  handle endpoint method r =
      if str_eq (codes.code_string r.code) method
      then with_body endpoint r.code r.body
      else done (some (plain codes.method_not_allowed "Method Not Allowed"))
