-- ===== src/Server/Lifecycle.antt =====
-- `Start` and `Shutdown` of server/server.go.
use servone.Prelude.{ℕ, String, Option}
use servone.Value.{Error}
use servone.World.{Action, ◌>>◌, log_printf, returned, record_event, http_served, http_shut_down}
use servone.Server.Routes.{DynamicServer}

-- `http.Server`, at the number of the call: `ListenAndServe` blocks, and then returns an error in
-- every case, `http.ErrServerClosed` after a call of `Shutdown`.
pub record HttpServer : Type 0 where
  pub listen_and_serve : ℕ → String → Error
  pub shut_down : ℕ → Option Error

module _ (http : HttpServer) where
  unfoldable pub listen_and_serve : String → Action Error
  listen_and_serve addr w =
      let answer = http.listen_and_serve w.calls addr in
      (returned answer, record_event (http_served addr answer) w)

  -- `DynamicServer.Start`.
  unfoldable pub start : {T : Type 0} → DynamicServer T → Action Error
  unfolding log_printf listen_and_serve
  start ds = do log_printf "Starting server on %s"; listen_and_serve ds.addr

  -- `DynamicServer.Shutdown`: `http.Server.Shutdown` with the same context.
  unfoldable pub shut_down : {T : Type 0} → DynamicServer T → Action (Option Error)
  shut_down ds w =
      let answer = http.shut_down w.calls in
      (returned answer, record_event (http_shut_down answer) w)
