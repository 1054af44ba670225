-- ===== src/Programs/Race/Lost.antt =====
-- What both programs can lose at a signal.
use servone.Prelude.{String, ◌≡◌, refl, ap, ◌∙◌, Option, none, some, List, [], ◌∷◌}
use servone.Value.{Error}
use servone.World.{
  Env, World, Action, ◌>>◌, returned, exited, log_printf, log_error, log_fatalf, record_event,
  http_shut_down,
}
use servone.Config.Watcher.{ConfigWatcher}
use servone.Kafka.Publisher.{PublisherInterface}
use servone.Mqtt.{Broker}
use servone.Server.Lifecycle.{HttpServer, shut_down}
use servone.Server.Lifecycle
use servone.Server.Routes.{DynamicServer}
use servone.Snmp.Trap.{TrapServer}
use servone.Programs.Full as Full
use servone.Programs.Rest as Rest
use servone.Programs.Releases.{http, releases}
use servone.Programs.Race.{Process, signalled, Steps, closing_of, full_deferred, rest_deferred}
use servone.Programs.Race.Laws.{Returns, cut_happens}

answered_releases :
    (line : String) (e : Option Error) (w : World)
    → releases
        ((log_error "Server shutdown error: %v" e >> log_printf line)
          (record_event (http_shut_down e) w)).1.trace
      ≡ http ∷ releases w.trace
unfolding log_error log_printf
answered_releases line none w = refl
answered_releases line (some e) w = refl

answered-returns :
    (line : String) (e : Option Error) (w : World)
    → ((log_error "Server shutdown error: %v" e >> log_printf line)
        (record_event (http_shut_down e) w)).0
      ≡ returned tt
unfolding log_error log_printf
answered-returns line none w = refl
answered-returns line (some e) w = refl

pub closing_of-Returns :
    (T : Type 0) (server : HttpServer) (ds : DynamicServer T) (line : String)
    → Returns (closing_of server ds line)
unfolding closing_of shut_down
closing_of-Returns T server ds line w = answered-returns line (server.shut_down w.calls) w

releases-closing_of :
    (T : Type 0) (server : HttpServer) (ds : DynamicServer T) (line : String) (w : World)
    → releases (closing_of server ds line w).1.trace ≡ http ∷ releases w.trace
unfolding closing_of shut_down
releases-closing_of T server ds line w = answered_releases line (server.shut_down w.calls) w

-- A run that ends with status 1, with nothing given back but the HTTP server.
abbrev pub Loses : Action Unit → List (Action Unit) → String → World → Type 0
Loses closing deferred line w =
    (t : Process) × Steps closing deferred line (signalled w) t
    × (t.status ≡ some 1)
    × (releases t.world.trace ≡ http ∷ releases w.trace)

loses :
    (T : Type 0) (server : HttpServer) (ds : DynamicServer T) (last : String)
    (deferred : List (Action Unit)) (line : String) (w : World)
    → Loses (closing_of server ds last) deferred line w
unfolding log_fatalf
loses T server ds last deferred line w =
    let closing = closing_of server ds last in
    let (t, runs, status, world_of) =
      cut_happens closing deferred line w [] deferred (closing_of-Returns T server ds last) tt
        refl in
    (
      t,
      runs,
      status,
      ap (λ (v : World). releases v.trace) world_of ∙ releases-closing_of T server ds last w,
    )

-- The goroutine that serves HTTP never returns from its last call: whatever ends `Start`, it ends
-- the process with status 1, and gives nothing back.
pub run_server_exits :
    (T : Type 0) (server : HttpServer) (ds : DynamicServer T) (w : World)
    → ((Full.run_server server ds w).0 ≡ exited 1)
      × ((Rest.run_server server ds w).0 ≡ exited 1)
      × (releases (Full.run_server server ds w).1.trace ≡ releases w.trace)
      × (releases (Rest.run_server server ds w).1.trace ≡ releases w.trace)
unfolding Full.run_server Rest.run_server Lifecycle.start Lifecycle.listen_and_serve log_printf
    log_fatalf
run_server_exits T server ds w = (refl, refl, refl, refl)

-- At a signal both programs have a run that ends with status 1, with nothing given back but the
-- HTTP server: servfull leaves the watcher, the trap listener, the connection to the broker, the
-- publisher and the pool open, and servrest the watcher, the publisher and the pool.
pub signal-Loses :
    (T : Type 0) (env : Env) (broker : Broker) (watcher : ConfigWatcher) (ts : TrapServer)
    (publisher : PublisherInterface) (server : HttpServer) (ds : DynamicServer T) (w : World)
    → Loses
        (closing_of server ds "All services stopped successfully")
        (full_deferred env broker watcher ts publisher)
        "Server failed to start: %v"
        w
      × Loses
          (closing_of server ds "REST API server stopped successfully")
          (rest_deferred env watcher publisher)
          "REST API server failed to start: %v"
          w
signal-Loses T env broker watcher ts publisher server ds w =
    (loses T server ds _ _ _ w, loses T server ds _ _ _ w)
