-- ===== src/Programs/Race/Endings.antt =====
-- What both programs give back when the process ends, at any moment after a signal.
use servone.Prelude.{List, [], ◌∷◌}
use servone.World.{World}
use servone.Config.Watcher as Watcher
use servone.Mqtt.{Broker}
use servone.Snmp.Scheduler as Scheduler
use servone.Snmp.Trap.{TrapServer}
use servone.Programs.Full.Services.{is_open}
use servone.Programs.Releases.{
  pool, kafka, mqtt, traps, watcher, http, Part, always, only_if, if_up,
}
use servone.Programs.Race.{Steps, Program, servfull, servrest}

-- What each program gives back at its end, the first thing last.
abbrev pub parts_of : Program → Broker → TrapServer → List Part
parts_of servfull broker ts =
    always pool
    ∷ always kafka
    ∷ if_up broker.is_connected mqtt
    ∷ only_if (is_open ts.listener) traps
    ∷ always watcher
    ∷ always http
    ∷ []
parts_of servrest broker ts = always pool ∷ always kafka ∷ always watcher ∷ always http ∷ []
