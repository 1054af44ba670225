-- ===== src/Server/Handler/Stored.antt =====
-- From a request to its row: the handler of an endpoint, and then the goroutine that it starts.
use servone.Prelude.{suc, ◌≤◌, ◌≡◌, refl, ◌⊎◌, inl, inr, Option, none, some, List, ◌∷◌}
use servone.Value.{Error, Fields}
use servone.World.{
  Env, World, Pool, Event, Outcome, returned, panicked, exited, client_data, and_then, log_error,
  log_printf, logged, save_request, get_db_pool,
}
use servone.Trace.{stored, sent}
use servone.Config.{EndpointConfig}
use servone.Go.{Go}
use servone.Http.{Request, fresh_writer}
use servone.Db.Global.{save_to_db_with_error}
use servone.Db.Atomic.{IsSafe, SavesOrFails, save_to_db_atomic}
use servone.Template.{Templates}
use servone.Server.Routes.{DynamicServer}
use servone.Server.Handler.{snmp_operation, run_save_request, handle}
use servone.Server.Handler.Laws.{IsJsonPost, handle_saves}
use servone.Snmp.Results.{PduText}
use servone.Snmp.Client.{Agents, SnmpClient}

-- It returned, with one row more in `client_data` and one record more for Kafka at most, or with
-- neither and a line of the log that says so.
abbrev pub Accounts : World → Outcome Unit × World → Type 0
Accounts u r =
    (r.0 ≡ returned tt)
    × (((stored client_data r.1.trace ≡ suc (stored client_data u.trace))
          × (sent r.1.trace ≤ suc (sent u.trace)))
        ⊎ ((stored client_data r.1.trace ≡ stored client_data u.trace)
            × (sent r.1.trace ≡ sent u.trace)
            × ((es : List Event) × (r.1.trace ≡ logged "Failed to save to database: %v" ∷ es))))

accounted :
    (u : World) (m : Outcome (Option Error) × World)
    → SavesOrFails u m
    → Accounts u (and_then m (log_error "Failed to save to database: %v"))
unfolding log_error log_printf
accounted u (returned none, v) (inl (h, row, record_sent)) = (refl, inl (row, record_sent))
accounted u (returned none, v) (inr (e, h, row, record_sent)) = cc
accounted u (returned (some x), v) (inl (h, row, record_sent)) = cc
accounted u (returned (some x), v) (inr (e, h, row, record_sent)) =
    (refl, inr (row, record_sent, (_, refl)))
accounted u (panicked x, v) (inl (h, row, record_sent)) = cc
accounted u (panicked x, v) (inr (e, h, row, record_sent)) = cc
accounted u (exited n, v) (inl (h, row, record_sent)) = cc
accounted u (exited n, v) (inr (e, h, row, record_sent)) = cc

module _ {T : Type 0} (go : Go) (templates : Templates T) (agents : Agents) (print : PduText)
    (env : Env) (ds : DynamicServer T) (client : Option SnmpClient) (endpoint : EndpointConfig)
    (r : Request) (v : World) (plain : snmp_operation endpoint.path r.method ≡ none) where
  -- At an endpoint that is none of the two SNMP operations, a POST of a JSON object that can be read
  -- is not lost: the handler starts one goroutine, and this, in whatever world it runs with `DbPool`
  -- open, and no publisher or one that keeps its contract, returns, having stored one row and handed
  -- over one record at most, or having done neither and logged that the saving failed.
  pub json_post-Accounts :
      (fields : Fields)
      → IsJsonPost go templates agents print env ds client endpoint r v plain fields
      → IsSafe ds.publisher
      → (u : World) (p : Pool) → u.db_pool ≡ some p
      → ((handle go templates agents print env ds client endpoint fresh_writer r v).1.goroutines
          ≡ save_request endpoint.path fields r.vars ∷ v.goroutines)
        × Accounts u (run_save_request env ds.publisher endpoint.path fields r.vars u)
  unfolding run_save_request get_db_pool
  json_post-Accounts fields (post, (content, read, full, json)) safe u p opened =
      let saving = save_to_db_atomic env endpoint.path fields r.vars ds.publisher safe u p opened in
      elim (handle_saves go templates agents print env ds client endpoint r v plain) [
        | inr (never, same) ↦ elim (never fields (post, (content, read, full, json))) [ ]
        | inl (fields', (post', (content', read', full', json')), one) ↦ (
          cc,
          rw opened (
              rw opened at (
                accounted u (save_to_db_with_error env endpoint.path fields r.vars ds.publisher u)
                  saving)),
        )
      ]
