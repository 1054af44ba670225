-- ===== src/Server/Handler/Laws.antt =====
-- What one request to an endpoint comes to.
use servone.Prelude.{
  String, ◌≡◌, ◌≢◌, ◌∙◌, ◌⊎◌, inl, inr, false, Option, none, some, ◌∷◌, arith, Option-cases,
}
use servone.Prelude.Int.{pos, ◌≤ℤ◌}
use servone.Prelude.Text.{contains}
use servone.Value.{ok, Fields}
use servone.World.{Env, World, returned, panicked, save_request, and_then}
use servone.World.Laws.{and_then_returned}
use servone.Config.{EndpointConfig}
use servone.Go.{Go}
use servone.Http.{Request, fresh_writer}
use servone.Template.{Templates}
use servone.Server.Routes.{DynamicServer}
use servone.Snmp.Results.{PduText}
use servone.Snmp.Client.{Agents, SnmpClient}
use servone.Server.Handler.Parts.{
  body_with, respond-goroutines, respond_static, respond_invalid, log_and_save_lem,
  log_and_save-goroutines,
}
use servone.Server.Handler.{read_body, snmp_operation, set_headers, log_and_save, respond, handle}

module _ {T : Type 0} (go : Go) (templates : Templates T) (agents : Agents) (print : PduText)
    (env : Env) (ds : DynamicServer T) (client : Option SnmpClient) (endpoint : EndpointConfig)
    (r : Request) (v : World) (plain : snmp_operation endpoint.path r.method ≡ none) where
  -- The log line returns, so the response follows it.
  logged :
      (content : String)
      → and_then
          (log_and_save go templates agents print env endpoint r.method r.vars content v)
          (λ _. respond go templates agents print env ds endpoint fresh_writer r.vars)
        ≡ respond go templates agents print env ds endpoint fresh_writer r.vars
            (log_and_save go templates agents print env endpoint r.method r.vars content v).1
  logged content =
      and_then_returned
        (log_and_save go templates agents print env endpoint r.method r.vars content v) tt _
        (log_and_save_lem go templates env agents print endpoint r.method r.vars content v)

  -- The request is a POST of a JSON object that can be read.
  abbrev pub IsJsonPost : Fields → Type 0
  IsJsonPost fields =
      (r.method ≡ "POST")
      × ((content : String) × (read_body r.body ≡ some content)
          × (content ≢ "")
          × (env.unmarshal content ≡ ok fields))

  -- At an endpoint that is none of the two SNMP operations, a request starts exactly one goroutine,
  -- which saves the endpoint's path, the JSON object and the path variables, if the request is a
  -- POST with a non-empty body of a readable size that is a JSON object; any other request starts
  -- none. That is so also where writing the response panics.
  pub handle_saves :
      ((fields : Fields) × IsJsonPost fields
        × ((handle go templates agents print env ds client endpoint fresh_writer r v).1.goroutines
            ≡ save_request endpoint.path fields r.vars ∷ v.goroutines))
      ⊎ (((fields : Fields) → IsJsonPost fields → ⊥)
          × ((handle go templates agents print env ds client endpoint fresh_writer r v).1.goroutines
              ≡ v.goroutines))
  unfolding handle
  handle_saves = elim (Option-cases (read_body r.body)) [
    | inl unread ↦ inr ((λ fields p. cc p.1.1), rw unread)
    | inr (content, read) ↦
        let after =
          respond-goroutines go templates env agents print ds endpoint fresh_writer r.vars _ in
        elim (log_and_save-goroutines go templates env agents print endpoint r.method r.vars content
          v) [
            | inl (fields, post, full, json, one) ↦ inl (
              fields,
              (post, (content, read, full, json)),
              rw (read, plain) (rw (logged content) (after ∙ one)),
            )
            | inr (never, same) ↦ inr (
              (λ fields p. never fields p.0 (ground arith) (ground arith)),
              rw (read, plain) (rw (logged content) (after ∙ same)),
            )
          ]
  ]

  -- At an endpoint that is none of the two SNMP operations, if the body can be read, the configured
  -- status is one from 200 to 999 and the configured body holds no template, the handler returns:
  -- the response has the configured status, the configured headers in order and the configured
  -- body, or none if no body goes with the status, and the template cache is what it was.
  pub handle_responds :
      {content : String}
      → read_body r.body ≡ some content
      → (pos 200 ≤ℤ endpoint.response.status) × (endpoint.response.status ≤ℤ pos 999)
      → contains endpoint.response.body "{{" ≡ false
      → (handle go templates agents print env ds client endpoint fresh_writer r v).0
        ≡ returned (record {
          writer =
              record (set_headers go templates agents print env endpoint.response.headers
                fresh_writer) {
                  status = some endpoint.response.status;
                  written = body_with endpoint.response.status endpoint.response.body;
                };
          templates = ds.templates;
        })
  unfolding handle
  handle_responds {content} read valid static =
      rw (read, plain)
        (rw (logged content)
          (respond_static go templates env agents print ds endpoint r.vars _ valid static))

  -- At an endpoint that is none of the two SNMP operations, with a body that can be read, a
  -- configured status that has not three digits (as the zero of a configuration without a status)
  -- makes the handler panic.
  pub handle_invalid_status :
      {content : String}
      → read_body r.body ≡ some content
      → ¬ ((pos 100 ≤ℤ endpoint.response.status) × (endpoint.response.status ≤ℤ pos 999))
      → (handle go templates agents print env ds client endpoint fresh_writer r v).0
        ≡ panicked "invalid WriteHeader code"
  unfolding handle
  handle_invalid_status {content} read invalid =
      rw (read, plain)
        (rw (logged content)
          (respond_invalid go templates env agents print ds endpoint r.vars _ invalid))
