-- ===== src/Programs/Host.antt =====
-- What both programs are given, and the steps that they share.
use servone.Prelude.{ℕ, String, Option, none, some, List}
use servone.Value.{Error, Result, ok, err}
use servone.World.{Env, Action, ◌>>=◌, done, log_error, log_fatalf}
use servone.Config.{ConfigFiles}
use servone.Config.Watcher.{FileSystem, Reloadable}
use servone.Go.{Go}
use servone.Db.Pools.{close_db}
use servone.Server.Lifecycle.{HttpServer}
use servone.Server.Routes.{DynamicServer, reload}
use servone.Coap.Server as Coap
use servone.Coap.Server.{CoapServer}

-- The world outside.
pub record Host : Type 0 where
  pub env : Env
  pub files : ConfigFiles
  pub fs : FileSystem
  pub go : Go
  pub http : HttpServer
  pub new_client : ℕ → List String → Option Error

-- `x, err := …; if err != nil { log.Fatalf(format, err) }`.
abbrev pub or_fatal : {A : Type 0} → String → Result A → Action A
or_fatal format (ok a) = done a
or_fatal format (err e) = log_fatalf format

-- `if err := …; err != nil { log.Fatalf(format, err) }`.
abbrev pub fatal_if : String → Option Error → Action Unit
fatal_if format none = done tt
fatal_if format (some e) = log_fatalf format

-- The deferred closing of the pool.
unfoldable pub close_pool_logged : Env → Action Unit
unfolding close_db log_error
close_pool_logged env = do e ← close_db env; log_error "Failed to close database: %v" e

-- The servers as the watcher sees them: what their `Reload` does to the world. The servers' own
-- fields are not the world's.
abbrev pub reloadable_server : {T : Type 0} → Go → DynamicServer T → Reloadable
reloadable_server go ds = record { reload = λ config. reload go config ds >>= λ _. done tt }

abbrev pub reloadable_coap : Go → CoapServer → Reloadable
reloadable_coap go cs = record { reload = λ config. Coap.reload go config cs >>= λ _. done tt }
