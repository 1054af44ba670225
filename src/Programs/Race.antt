-- ===== src/Programs/Race.antt =====
-- The end of both programs: the end of `main`, with its deferred calls, and the goroutine that
-- serves HTTP, which ends the process by `log.Fatalf` when `ListenAndServe` returns. `Shutdown`
-- makes it return.
pub mod Laws
pub mod Cuts
pub mod Owed
pub mod Endings
pub mod Lost
use servone.Prelude.{
  ℕ, String, ◌≡◌, Bool, true, false, Option, none, some, List, [], ◌∷◌, if◌then◌else◌,
}
use servone.World.{
  World, Outcome, returned, panicked, exited, Action, ◌>>=◌, ◌>>◌, Env, log_printf, log_error,
  log_fatalf,
}
use servone.Config.Watcher as Watcher
use servone.Config.Watcher.{ConfigWatcher}
use servone.Kafka.Publisher.{PublisherInterface}
use servone.Mqtt.{Broker, disconnect}
use servone.Server.Lifecycle.{HttpServer, shut_down}
use servone.Server.Routes.{DynamicServer}
use servone.Snmp.Scheduler as Scheduler
use servone.Snmp.Trap.{TrapServer, stop_trap_server}
use servone.Programs.Host.{close_pool_logged}

-- Where `main` stands: before the call of `Shutdown`, in it, or at its deferred calls, with those
-- that are left.
pub data Phase : Type 0 where
  at_signal shutting_down : Phase
  leaving : List (Action Unit) → Phase

-- `status` is that of the process, once it has ended; `served` tells whether `ListenAndServe` has
-- returned, and `panicking` whether `main` panics, while its deferred calls run.
pub record Process : Type 0 where
  pub phase : Phase
  pub panicking : Bool
  pub served : Bool
  pub status : Option ℕ
  pub world : World

-- After a call of `main`: it goes on if the call returned; if it panicked it goes on with the
-- deferred calls, panicking; and an exit ends the process.
abbrev pub settle : Outcome Unit × World → Phase → Process → Process
settle (returned u, w) next s = record s { phase = next; world = w }
settle (panicked e, w) next s = record s { phase = next; panicking = true; world = w }
settle (exited n, w) next s = record s { status = some n; world = w }

abbrev pub signalled : World → Process
signalled w = record {
  phase = at_signal;
  panicking = false;
  served = false;
  status = none;
  world = w;
}

-- `closing` is the rest of `main` from the call of `Shutdown` on, `deferred` the deferred calls in
-- the order in which they run, and `line` what the goroutine logs. Until the process has ended
-- either of the two goroutines may take its next step.
pub data Step (closing : Action Unit) (deferred : List (Action Unit)) (line : String) (s : Process)
    : Process → Type 0 where
  calls_shutdown :
      s.status ≡ none
      → s.phase ≡ at_signal
      → Step closing deferred line s (record s { phase = shutting_down; served = true })
  returns_from_shutdown :
      s.status ≡ none
      → s.phase ≡ shutting_down
      → Step closing deferred line s (settle (closing s.world) (leaving deferred) s)
  runs_deferred :
      (call : Action Unit) (calls : List (Action Unit))
      → s.status ≡ none
      → s.phase ≡ leaving (call ∷ calls)
      → Step closing deferred line s (settle (call s.world) (leaving calls) s)
  ends_main :
      s.status ≡ none
      → s.phase ≡ leaving []
      → Step closing deferred line s (record s { status = some (if s.panicking then 2 else 0) })
  fails :
      s.status ≡ none
      → s.served ≡ true
      → Step closing deferred line s
          (record s { status = some 1; world = (log_fatalf {A = Unit} line s.world).1 })

pub data Steps (closing : Action Unit) (deferred : List (Action Unit)) (line : String)
    : Process → Process → Type 0 where
  rests : {s : Process} → Steps closing deferred line s s
  steps :
      {s t u : Process}
      → Step closing deferred line s t
      → Steps closing deferred line t u
      → Steps closing deferred line s u

-- The end of `main` from the call of `Shutdown` on, with its last line.
unfoldable pub closing_of : {T : Type 0} → HttpServer → DynamicServer T → String → Action Unit
unfolding shut_down log_error log_printf
closing_of http ds line = do
  e ← shut_down http ds
  log_error "Server shutdown error: %v" e
  log_printf line

-- The deferred calls of cmd/servfull; the cancelling of a context has no effect here.
abbrev pub full_deferred :
    Env → Broker → ConfigWatcher → TrapServer → PublisherInterface → List (Action Unit)
full_deferred env broker watcher traps publisher =
    Watcher.stop watcher
    ∷ stop_trap_server traps
    ∷ Scheduler.stop false
    ∷ disconnect broker
    ∷ publisher.close
    ∷ close_pool_logged env
    ∷ []

-- Those of cmd/servrest.
abbrev pub rest_deferred : Env → ConfigWatcher → PublisherInterface → List (Action Unit)
rest_deferred env watcher publisher =
    Watcher.stop watcher ∷ publisher.close ∷ close_pool_logged env ∷ []

pub data Program : Type 0 where
  servfull servrest : Program

abbrev pub deferred_of :
    Program → Env → Broker → ConfigWatcher → TrapServer → PublisherInterface → List (Action Unit)
deferred_of servfull env broker watcher traps publisher =
    full_deferred env broker watcher traps publisher
deferred_of servrest env broker watcher traps publisher = rest_deferred env watcher publisher

-- What `main` logs last, and what the goroutine logs.
abbrev pub last_line : Program → String
last_line servfull = "All services stopped successfully"
last_line servrest = "REST API server stopped successfully"

abbrev pub failure_line : Program → String
failure_line servfull = "Server failed to start: %v"
failure_line servrest = "REST API server failed to start: %v"
