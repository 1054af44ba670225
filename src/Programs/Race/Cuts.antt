-- ===== src/Programs/Race/Cuts.antt =====
-- The end of both programs can be cut at every deferred call.
use servone.Prelude.{
  false, ◌≡◌, refl, sym, subst, inl, inr, Bool-cases, Option, none, some, List, [], ◌∷◌, ◌++◌,
}
use servone.Value.{Error}
use servone.World.{Env, World, Pool, Action, and_then, returned, log_printf, log_error}
use servone.Config.Watcher as Watcher
use servone.Config.Watcher.{ConfigWatcher}
use servone.Kafka.Publisher.{kafka_publisher, close}
use servone.Mqtt.{Broker, disconnect}
use servone.Server.Lifecycle.{HttpServer}
use servone.Server.Routes.{DynamicServer}
use servone.Snmp.Scheduler as Scheduler
use servone.Snmp.Scheduler.{close_stop}
use servone.Snmp.Trap.{TrapServer, stop_trap_server, close_listener}
use servone.Db.Pools.{close_db, close_if_open}
use servone.Programs.Host.{close_pool_logged}
use servone.Programs.Race.{
  Process, signalled, Steps, Program, servfull, servrest, closing_of, deferred_of, last_line,
  failure_line,
}
use servone.Programs.Race.Laws.{Returns, AllReturn, left_by, after_fatal, cut_happens}
use servone.Programs.Race.Lost.{closing_of-Returns}

watcher-Returns : (cw : ConfigWatcher) → Returns (Watcher.stop cw)
unfolding Watcher.stop
watcher-Returns cw v = refl

pub stop_trap_server-Returns : (ts : TrapServer) → Returns (stop_trap_server ts)
unfolding stop_trap_server close_listener log_printf
stop_trap_server-Returns ts v =
    elim ts.listener as (λ l. (stop_trap_server (record ts { listener = l }) v).0 ≡ returned tt) [
      | none ↦ refl
      | some listener ↦ refl
    ]

scheduler-Returns : Returns (Scheduler.stop false)
unfolding Scheduler.stop close_stop log_printf
scheduler-Returns v = refl

pub disconnect-Returns : (broker : Broker) → Returns (disconnect broker)
unfolding disconnect log_printf
disconnect-Returns broker v = elim (Bool-cases (broker.is_connected v.calls)) [
  | inl is_so ↦ rw is_so refl
  | inr not_so ↦ rw not_so refl
]

close-Returns : (env : Env) → Returns (kafka_publisher env).close
unfolding close
close-Returns env v = refl

logged-returns :
    (e : Option Error) (w : World) → (log_error "Failed to close database: %v" e w).0 ≡ returned tt
unfolding log_error log_printf
logged-returns none w = refl
logged-returns (some e) w = refl

closed-returns :
    (env : Env) (db : Option Pool) (w : World)
    → (and_then (close_if_open env db w) (log_error "Failed to close database: %v")).0 ≡ returned tt
unfolding close_if_open
closed-returns env none w = logged-returns none w
closed-returns env (some q) w = logged-returns (env.close_pool w.calls q) _

pub close_pool-Returns : (env : Env) → Returns (close_pool_logged env)
unfolding close_pool_logged close_db
close_pool-Returns env v = closed-returns env v.db_pool v

AllReturn-prefix : (ran left : List (Action Unit)) → AllReturn (ran ++ left) → AllReturn ran
AllReturn-prefix [] left h = tt
AllReturn-prefix (call ∷ ran) left (quiet, rest) = (quiet, AllReturn-prefix ran left rest)

module _ (env : Env) (broker : Broker) (cw : ConfigWatcher) (ts : TrapServer) where
  deferred_of-AllReturn :
      (program : Program) → AllReturn (deferred_of program env broker cw ts (kafka_publisher env))
  deferred_of-AllReturn servfull = (
    watcher-Returns cw,
    (
      stop_trap_server-Returns ts,
      (
        scheduler-Returns,
        (disconnect-Returns broker, (close-Returns env, (close_pool-Returns env, tt))),
      ),
    ),
  )
  deferred_of-AllReturn servrest =
      (watcher-Returns cw, (close-Returns env, (close_pool-Returns env, tt)))

  -- In both programs every cut happens: wherever the deferred calls are divided, there is a run in
  -- which those before the cut have run, those behind it never do, and the process has ended with
  -- status 1.
  pub race_cuts :
      (program : Program) (T : Type 0) (server : HttpServer) (ds : DynamicServer T) (w : World)
      (ran left : List (Action Unit))
      → ran ++ left ≡ deferred_of program env broker cw ts (kafka_publisher env)
      → (t : Process) × Steps
          (closing_of server ds (last_line program))
          (deferred_of program env broker cw ts (kafka_publisher env))
          (failure_line program)
          (signalled w)
          t
        × (t.status ≡ some 1)
        × (t.world
            ≡ after_fatal
                (closing_of server ds (last_line program))
                (deferred_of program env broker cw ts (kafka_publisher env))
                (failure_line program)
                w
                (left_by
                  (closing_of server ds (last_line program))
                  (deferred_of program env broker cw ts (kafka_publisher env))
                  (failure_line program)
                  w
                  ran))
  race_cuts program T server ds w ran left is_split =
      cut_happens (closing_of server ds (last_line program))
        (deferred_of program env broker cw ts (kafka_publisher env)) (failure_line program) w ran
        left (closing_of-Returns T server ds (last_line program))
        (AllReturn-prefix ran left (subst AllReturn (sym is_split) (deferred_of-AllReturn program)))
        is_split
