-- ===== src/Tests/Walking.antt =====
-- The walk scheduler, and the end of a process.
use servone.Prelude.{◌≡◌, refl, ap, true, false, Option, some, [], ◌∷◌}
use servone.Value.{Error}
use servone.World.{Outcome, returned, log_printf}
use servone.Trace.{attempts}
use servone.Kafka.Contract.{kafka_publisher-IsPublisher}
use servone.Snmp.Client.{SnmpClient, walk_v3, walk_targets}
use servone.Snmp.Client.Rounds.{IsTyped, walk_targets_lem, walk_v3-Tries}
use servone.Snmp.Scheduler.{
  Scheduler, fresh, waiting, returned_from, Steps, steps, rests, calls_stop, leaves_stop,
}
use servone.Snmp.Scheduler.Laws.{stop_final, stop_can_return, WalksReturn, CanStop}
use servone.Tests.Samples.{
  sample_env, sample_world, sample_config, sample_agents, sample_print, sample_publisher,
}

sample_agents-IsTyped : IsTyped sample_agents
sample_agents-IsTyped call g root_oid [] h = tt
sample_agents-IsTyped call g root_oid (pdu ∷ pdus) h = cc

abbrev walk_client : SnmpClient
walk_client = record {
  config = sample_config.snmp;
  db = some 1;
  kafka_publisher = some sample_publisher;
}

walk_targets_lem_example :
    ((walk_targets sample_agents sample_print sample_env walk_client
        ("10.0.0.1" ∷ "10.0.0.2" ∷ [])
        sample_world).0
      ≡ returned tt)
    × (attempts
          (walk_targets sample_agents sample_print sample_env walk_client
            ("10.0.0.1" ∷ "10.0.0.2" ∷ [])
            sample_world).1.trace
        ≡ "10.0.0.2" ∷ "10.0.0.1" ∷ [])
walk_targets_lem_example =
    walk_targets_lem sample_agents sample_print sample_env sample_agents-IsTyped sample_config.snmp
      1 sample_publisher (kafka_publisher-IsPublisher sample_env) ("10.0.0.1" ∷ "10.0.0.2" ∷ [])
      sample_world

sample-WalksReturn : WalksReturn sample_agents sample_print sample_env walk_client
sample-WalksReturn target w =
    let root = walk_client.config.root_oid in
    let ((e, h), tried) =
      walk_v3-Tries sample_agents sample_print sample_env sample_agents-IsTyped sample_config.snmp 1
        sample_publisher (kafka_publisher-IsPublisher sample_env) target root w in
    let walked = walk_v3 sample_agents sample_print sample_env walk_client target root w in
    (e, walked.1, ap (λ (o : Outcome (Option Error)). (o, walked.1)) h)

-- `Stop` is called while the goroutine begins.
abbrev stopping : Scheduler
stopping = record (fresh true sample_world) { stop_closed = true; stopper = waiting }

stop_is_called :
    Steps sample_agents sample_print sample_env walk_client (fresh true sample_world) stopping
stop_is_called = steps (calls_stop refl) rests

stop_can_return_example : CanStop sample_agents sample_print sample_env walk_client stopping
stop_can_return_example =
    stop_can_return sample_agents sample_print sample_env walk_client sample-WalksReturn true
      sample_world stop_is_called refl

-- The scheduler is not started, and `Stop` returns at once.
abbrev stopped : Scheduler
stopped = record (fresh false sample_world) {
  stop_closed = true;
  stopper = returned_from;
  world = (log_printf "SNMP client stopped." sample_world).1;
}

stop_has_returned :
    Steps sample_agents sample_print sample_env walk_client (fresh false sample_world) stopped
stop_has_returned = steps (calls_stop refl) (steps (leaves_stop refl tt) rests)

stop_final_example : stopped ≡ stopped
stop_final_example =
    stop_final sample_agents sample_print sample_env walk_client false sample_world
      stop_has_returned refl rests
