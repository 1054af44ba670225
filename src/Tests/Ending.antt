-- ===== src/Tests/Ending.antt =====
-- The end of the programs, where `Shutdown` answers at once.
use servone.Prelude.{ℕ, String, ◌≡◌, refl, true, false, none, some, List, [], ◌∷◌}
use servone.World.{World, Action}
use servone.Config.Watcher as Watcher
use servone.Config.Watcher.{ConfigWatcher}
use servone.Kafka.Publisher.{close}
use servone.Snmp.Trap.{TrapServer}
use servone.Programs.Race.{
  Process, leaving, signalled, Steps, closing_of, full_deferred, rest_deferred, servrest,
}
use servone.Programs.Host.{close_pool_logged}
use servone.Programs.Releases.{http}
use servone.Programs.Race.Laws.{run_all, left_by, after_fatal}
use servone.Programs.Race.Cuts.{race_cuts}
use servone.Programs.Race.Lost.{Loses, signal-Loses}
use servone.Tests.Programs.{sample_host, sample_broker}
use servone.Tests.Samples.{sample_env, sample_world, sample_config, sample_publisher, sample_server}

abbrev sample_watcher : ConfigWatcher
sample_watcher = record { config_path = "config.yaml"; servers = [] }

abbrev sample_traps : TrapServer
sample_traps = record {
  config = sample_config.snmptrap;
  db = some 1;
  kafka_publisher = some sample_publisher;
  listener = none;
}

signal-Loses_example :
    Loses
      (closing_of sample_host.http sample_server "All services stopped successfully")
      (full_deferred sample_env sample_broker sample_watcher sample_traps sample_publisher)
      "Server failed to start: %v"
      sample_world
    × Loses
        (closing_of sample_host.http sample_server "REST API server stopped successfully")
        (rest_deferred sample_env sample_watcher sample_publisher)
        "REST API server failed to start: %v"
        sample_world
signal-Loses_example =
    signal-Loses ℕ sample_env sample_broker sample_watcher sample_traps sample_publisher
      sample_host.http sample_server sample_world

-- The end of `main` of servrest.
abbrev closing : Action Unit
closing = closing_of sample_host.http sample_server "REST API server stopped successfully"

abbrev deferred : List (Action Unit)
deferred = rest_deferred sample_env sample_watcher sample_publisher

abbrev failure : String
failure = "REST API server failed to start: %v"

race_cuts_example :
    (t : Process) × Steps closing deferred failure (signalled sample_world) t
    × (t.status ≡ some 1)
    × (t.world
        ≡ after_fatal closing deferred failure sample_world
            (left_by closing deferred failure sample_world (Watcher.stop sample_watcher ∷ [])))
race_cuts_example =
    race_cuts sample_env sample_broker sample_watcher sample_traps servrest ℕ sample_host.http
      sample_server sample_world (Watcher.stop sample_watcher ∷ [])
      (close sample_env ∷ close_pool_logged sample_env ∷ []) refl

-- The world after the whole end of servrest.
abbrev rest_left : World
rest_left = run_all (closing ∷ deferred) sample_world

-- Everything is run, and the goroutine is never scheduled again.
abbrev all_run : Process
all_run = record {
  phase = leaving [];
  panicking = false;
  served = true;
  status = some 0;
  world = rest_left;
}
