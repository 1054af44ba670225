-- ===== src/Tests/Programs.antt =====
-- The two programs in a world where every call succeeds, and the walk scheduler.
use servone.Prelude.{ℕ, ◌≡◌, refl, ap, ◌∙◌, Bool, true, false, none, some, [], ◌∷◌}
use servone.Value.{message, ok}
use servone.World.{World, Action, Outcome, returned, exited}
use servone.Config.{load_config}
use servone.Coap.Server.{CoapServer}
use servone.Kafka.Publisher.{close}
use servone.Mqtt.{Broker}
use servone.Programs.Host.{Host}
use servone.Programs.Releases.{
  pool, kafka, mqtt, traps, watcher, http, always, only_if, if_up, releases,
}
use servone.Programs.Releases.Shared.{Finishes}
use servone.Programs.Rest as Rest
use servone.Programs.Rest.Laws as RestLaws
use servone.Programs.Rest.Laws.{rest_main-Finishes}
use servone.Programs.Full as Full
use servone.Programs.Full.Laws as FullLaws
use servone.Programs.Full.Laws.{full_main-Finishes}
use servone.Tests.Samples.{sample_env, sample_go, sample_config}

abbrev start_world : World
start_world = record { calls = 0; trace = []; db_pool = none; goroutines = [] }

abbrev pub sample_host : Host
sample_host = record {
  env = sample_env;
  files = record {
    open_file = λ s. none;
    read_all = λ s. ok "";
    unmarshal_yaml = λ s. ok sample_config;
  };
  fs = record {
    new_watcher = λ n. none;
    absolute = λ s. ok s;
    directory = λ s. s;
    add_watch = λ n s. none;
  };
  go = sample_go;
  http = record { listen_and_serve = λ n s. message "closed"; shut_down = λ n. none };
  new_client = λ n brokers. none;
}

abbrev pub sample_broker : Broker
sample_broker = record {
  connect = λ n a c. none;
  subscribe = λ n t. none;
  is_connected = λ n. true;
}

abbrev at_once : Action Unit
at_once w = (returned tt, w)

at_once-Waits : RestLaws.Waits at_once
at_once-Waits w = (refl, (refl, ([], refl, refl)))

abbrev same_coap : CoapServer → Action CoapServer
same_coap cs w = (returned (record cs { listening = false }), w)

abbrev listens : Outcome CoapServer → Bool
listens (returned cs) = cs.listening
listens _ = false

same_coap-Waits : FullLaws.Waits same_coap
same_coap-Waits cs w =
    ((_, refl), (λ cs' same on closed. cc (ap listens same ∙ on)), (refl, ([], refl, refl)))

rest_main-Finishes_example :
    Finishes
      (always pool ∷ always kafka ∷ always watcher ∷ always http ∷ [])
      start_world
      (Rest.main ℕ sample_host at_once start_world)
rest_main-Finishes_example = rest_main-Finishes ℕ sample_host at_once at_once-Waits start_world

-- The program returns, and has given back what it held.
rest_returns :
    ((Rest.main ℕ sample_host at_once start_world).0 ≡ returned tt)
    × (releases (Rest.main ℕ sample_host at_once start_world).1.trace
        ≡ pool ∷ kafka ∷ watcher ∷ http ∷ [])
unfolding Rest.main close
rest_returns = (refl, refl)

full_main-Finishes_example :
    Finishes
      (always pool
        ∷ always kafka
        ∷ if_up (λ n. true) mqtt
        ∷ only_if true traps
        ∷ always watcher
        ∷ always http
        ∷ [])
      start_world
      (Full.main ℕ sample_host sample_broker same_coap start_world)
unfolding load_config
full_main-Finishes_example =
    full_main-Finishes ℕ sample_host sample_broker same_coap same_coap-Waits start_world

full_returns :
    ((Full.main ℕ sample_host sample_broker same_coap start_world).0 ≡ returned tt)
    × (releases (Full.main ℕ sample_host sample_broker same_coap start_world).1.trace
        ≡ pool ∷ kafka ∷ mqtt ∷ traps ∷ watcher ∷ http ∷ [])
unfolding Full.main close
full_returns = (refl, refl)

-- Where the Kafka client cannot be made, the program ends with the pool open.
abbrev no_kafka : Host
no_kafka = record sample_host { new_client = λ n brokers. some (message "no brokers") }

full_fails :
    ((Full.main ℕ no_kafka sample_broker same_coap start_world).0 ≡ exited 1)
    × ((Full.main ℕ no_kafka sample_broker same_coap start_world).1.db_pool ≡ some 1)
    × (releases (Full.main ℕ no_kafka sample_broker same_coap start_world).1.trace ≡ [])
unfolding Full.main
full_fails = (refl, refl, refl)
