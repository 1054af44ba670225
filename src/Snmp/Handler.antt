-- ===== src/Snmp/Handler.antt =====
-- snmpclient/handler.go: the HTTP requests for SNMP operations.
pub mod Parsed
pub mod Laws
use servone.Prelude.{ℕ, String, Option, none, some, List, [], ◌∷◌, str_eq, if◌then◌else◌}
use servone.Prelude.Int.{pos}
use servone.Prelude.Text.{◌<>◌}
use servone.Value.{
  Error, error_string, Result, ok, err, Value, null, boolean, int, float, text, items, object,
  Items, nil, cons, Fields, end, field, get,
}
use servone.World.{Env, Action, ◌>>=◌, ◌>>◌, done, panic, log_printf}
use servone.Http.{Body, read_all, ResponseWriter, set_header, write_header, write, http_error}
use servone.Snmp.Results.{PduText}
use servone.Snmp.Client.{Agents, SnmpClient, get_v3}

-- `SetGlobalSNMPClient`, from the old value of the global to the new one.
unfoldable pub set_global_snmp_client : Option SnmpClient → Option SnmpClient → Option SnmpClient
set_global_snmp_client client old = client

-- `target, ok := data["target"].(string)`, with the test for the empty text.
unfoldable pub target_of : Option Value → Option String
target_of (some (text s)) = if str_eq s "" then none else some s
target_of _ = none

-- `oidsRaw, ok := data["oids"].([]interface{})`, with the test for the empty slice.
unfoldable pub oids_raw_of : Option Value → Option Items
oids_raw_of (some (items (cons x xs))) = some (cons x xs)
oids_raw_of _ = none

-- The loop that converts the OIDs; `none` at one that is no string.
unfoldable pub oids_of : Items → Option (List String)
oids_of nil = some []
oids_of (cons (text s) xs) = elim (oids_of xs) [ none ↦ none | some ss ↦ some (s ∷ ss) ]
oids_of (cons _ xs) = none

text_items : List String → Items
text_items [] = nil
text_items (s ∷ ss) = cons (text s) (text_items ss)

abbrev pub bad_request : (String → String) → String → ResponseWriter → Action ResponseWriter
bad_request canonical reason w = done (http_error canonical reason 400 w)

module _ (canonical : String → String) (agents : Agents) (print : PduText) (env : Env) where
  -- `json.NewEncoder(w).Encode(response)`: the encoding and a newline; its error is dropped.
  encode : Fields → ResponseWriter → ResponseWriter
  unfolding write
  encode response w = elim (env.marshal (object response)) [
    | ok payload ↦ write canonical (payload <> "\n") w
    | err e ↦ w
  ]

  -- The response to the result of the GET.
  pub answer_get : String → List String → ResponseWriter → Option Error → Action ResponseWriter
  unfolding log_printf set_header write_header encode error_string text_items
  answer_get target oids w (some e) = do
    log_printf "SNMP GET error: %v"
    sent ←
        write_header canonical (pos 500) (set_header canonical "Content-Type" "application/json" w)
    done (encode (field "status" (text "error") (field "error" (text (error_string e)) end)) sent)
  answer_get target oids w none = done (
      encode
        (field "status" (text "success") (
          field "message" (text "SNMP GET operation completed")
            (field "target" (text target) (field "oids" (items (text_items oids)) end))))
        (set_header canonical "Content-Type" "application/json" w))

  -- `handleGet`.
  unfoldable pub handle_get : SnmpClient → ResponseWriter → Fields → Action ResponseWriter
  unfolding answer_get http_error
  handle_get client w data_map = elim (target_of (get "target" data_map)) [
    | none ↦ bad_request canonical "Target is required" w
    | some target ↦ elim (oids_raw_of (get "oids" data_map)) [
      | none ↦ bad_request canonical "OIDs are required" w
      | some raw ↦ elim (oids_of raw) [
        | none ↦ bad_request canonical "Invalid OID format" w
        | some oids ↦ do e ← get_v3 agents print env client target oids; answer_get target oids w e
      ]
    ]
  ]

  -- The `switch` on the operation.
  dispatch : SnmpClient → ResponseWriter → String → Fields → Action ResponseWriter
  unfolding handle_get http_error
  dispatch client w operation data_map =
      if str_eq operation "get"
      then handle_get client w data_map
      else bad_request canonical "Unknown or unsupported SNMP operation" w

  decoded : SnmpClient → ResponseWriter → String → Result Fields → Action ResponseWriter
  unfolding dispatch http_error
  decoded client w operation (err e) = bad_request canonical "Invalid JSON" w
  decoded client w operation (ok data_map) = dispatch client w operation data_map

  body_read : SnmpClient → ResponseWriter → String → Option String → Action ResponseWriter
  unfolding decoded http_error
  body_read client w operation none = bad_request canonical "Failed to read request body" w
  body_read client w operation (some content) = decoded client w operation (env.unmarshal content)

  with_body : SnmpClient → ResponseWriter → String → Option Body → Action ResponseWriter
  unfolding body_read
  with_body client w operation none = panic "nil pointer dereference"
  with_body client w operation (some b) = body_read client w operation (read_all b)

  -- `HandleSNMPRequest`; the first argument is `GlobalSNMPClient`.
  unfoldable pub handle_snmp_request :
      Option SnmpClient → ResponseWriter → Option Body → String → Action ResponseWriter
  unfolding with_body http_error
  handle_snmp_request none w body operation =
      done (http_error canonical "SNMP client not initialized" 500 w)
  handle_snmp_request (some client) w body operation = with_body client w operation body
