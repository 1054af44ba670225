-- ===== src/Snmp/Scheduler.antt =====
-- `StartWalkScheduler` and `Stop` of snmpclient/snmp.go: the scheduler's goroutine, the channel
-- `stop` and the wait group.
pub mod Laws
use servone.Prelude.{String, ◌≡◌, Bool, true, false, Option, List, [], ◌∷◌, if◌then◌else◌}
use servone.Prelude.Int.{ℤ, pos, leb_ℤ}
use servone.Value.{Error}
use servone.World.{
  Env, World, Outcome, returned, Action, ◌>>=◌, ◌>>◌, done, panic, log_printf, log_error, spawn,
  walk_scheduler,
}
use servone.Snmp.Results.{PduText}
use servone.Snmp.Client.{Agents, SnmpClient, walk_v3}

-- `StartWalkScheduler`: whether the goroutine was started, and the wait group counts one.
unfoldable pub start_walk_scheduler : SnmpClient → Action Bool
unfolding log_printf spawn
start_walk_scheduler c =
    if leb_ℤ c.config.term (pos 0)
    then (do log_printf "SNMP walk scheduler is disabled (term is zero or negative)."; done false)
    else (do spawn walk_scheduler; done true)

-- `close(c.stop)`; the argument tells whether the channel is closed.
unfoldable pub close_stop : Bool → Action Bool
close_stop true = panic "close of closed channel"
close_stop false = done true

-- `Stop`, where the wait has ended.
unfoldable pub stop : Bool → Action Unit
unfolding close_stop log_printf
stop stop_closed = do closed ← close_stop stop_closed; log_printf "SNMP client stopped."

-- Where the goroutine stands: not started, before its loop, at the `select`, in the loop over the
-- targets with those that are left, or at its end.
pub data Phase : Type 0 where
  not_started starting selecting ended : Phase
  walking : List String → Phase

-- Where the one call of `Stop` stands: not made, at `c.wg.Wait()`, or returned.
pub data Stopper : Type 0 where
  not_called waiting returned_from : Stopper

pub record Scheduler : Type 0 where
  pub phase : Phase
  pub stop_closed : Bool
  pub stopper : Stopper
  pub world : World

-- After `StartWalkScheduler`, from a world.
abbrev pub fresh : Bool → World → Scheduler
fresh started w = record {
  phase = if started then starting else not_started;
  stop_closed = false;
  stopper = not_called;
  world = w;
}

-- The wait group counts no goroutine.
abbrev pub IsDone : Phase → Type 0
IsDone not_started = Unit
IsDone ended = Unit
IsDone _ = ⊥

-- One step of the goroutine or of `Stop`. At the `select` a tick may be taken also when the channel
-- is closed: Go chooses at random between the two.
pub data Step (agents : Agents) (print : PduText) (env : Env) (c : SnmpClient) (s : Scheduler)
    : Scheduler → Type 0 where
  begins :
      s.phase ≡ starting
      → Step agents print env c s (record s {
        phase = selecting;
        world = (log_printf "Starting SNMP walk scheduler with term %d seconds" s.world).1;
      })
  ticks :
      s.phase ≡ selecting
      → Step agents print env c s (record s {
        phase = walking c.config.targets;
        world = (log_printf "Executing scheduled SNMP walk." s.world).1;
      })
  walks :
      (target : String) (targets : List String) (e : Option Error) (w : World)
      → s.phase ≡ walking (target ∷ targets)
      → walk_v3 agents print env c target c.config.root_oid s.world ≡ (returned e, w)
      → Step agents print env c s (record s {
        phase = walking targets;
        world = (log_error "Scheduled SNMP walk failed for target %s: %v" e w).1;
      })
  rounds : s.phase ≡ walking [] → Step agents print env c s (record s { phase = selecting })
  sees_stop :
      s.phase ≡ selecting
      → s.stop_closed ≡ true
      → Step agents print env c s (record s {
        phase = ended;
        world = (log_printf "Stopping SNMP walk scheduler." s.world).1;
      })
  calls_stop :
      s.stopper ≡ not_called
      → Step agents print env c s (record s { stop_closed = true; stopper = waiting })
  leaves_stop :
      s.stopper ≡ waiting
      → IsDone s.phase
      → Step agents print env c s (record s {
        stopper = returned_from;
        world = (log_printf "SNMP client stopped." s.world).1;
      })

pub data Steps (agents : Agents) (print : PduText) (env : Env) (c : SnmpClient)
    : Scheduler → Scheduler → Type 0 where
  rests : {s : Scheduler} → Steps agents print env c s s
  steps :
      {s t u : Scheduler}
      → Step agents print env c s t
      → Steps agents print env c t u
      → Steps agents print env c s u
