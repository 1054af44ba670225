-- ===== src/Tests/Lifecycle.antt =====
-- The CoAP server over time, and MQTT messages.
use servone.Prelude.{arith, ℕ, ◌⊎◌, inl, none, ◌≡◌, refl, true, false, some, [], ◌∷◌, map}
use servone.World.{returned}
use servone.Trace.{sent}
use servone.Config.Watcher.{FileEvent, is_change, watch_loop}
use servone.Config.Watcher.Laws.{burst_reloads_once}
use servone.Config.Watcher.Due.{ReloadsFrom, IsCutOff, change_reloads}
use mathlib.Core.List.Memᴰ.{head, tail}
use servone.Mqtt.{handle_message}
use servone.Mqtt.Laws.{Stores, handle_message_lem}
use servone.Coap.Server.{
  CoapServer, route_of, new_coap_server, stop, restart, reload, Listeners, constructed, Steps,
  steps, rests, begins, stops_to_reload, restarts,
}
use servone.Coap.Server.Laws.{stop_returns, coap_reload_eq_new}
use servone.Tests.Samples.{sample_env, sample_world, sample_publisher, sample_go, sample_config}

handle_message_lem_example :
    ((handle_message sample_env
        (record { kafka_publisher = some sample_publisher })
        "home/led"
        "on"
        sample_world).0
      ≡ returned tt)
    × (sent
          (handle_message sample_env
            (record { kafka_publisher = some sample_publisher })
            "home/led"
            "on"
            sample_world).1.trace
        ≡ 1)
    × Stores sample_env "home/led" "on" 1 1 sample_world
        (handle_message sample_env
          (record { kafka_publisher = some sample_publisher })
          "home/led"
          "on"
          sample_world).1
handle_message_lem_example = handle_message_lem sample_env "home/led" "on" 1 sample_world refl refl

abbrev coap_server : CoapServer
coap_server = record {
  config = sample_config;
  router = [];
  publisher = some sample_publisher;
  stop_closed = false;
  listening = true;
}

-- A new server, which begins to listen, is reloaded, and begins to listen again.
abbrev new_server : CoapServer
new_server = record coap_server { listening = false }

abbrev listening_again : Listeners
listening_again = record {
  server = coap_server;
  waiting = [];
  binding = "0.0.0.0:5683" ∷ "0.0.0.0:5683" ∷ [];
  serving = [];
  reloading = none;
}

is_made :
    (new_coap_server sample_go sample_config (some sample_publisher) sample_world).0
    ≡ returned new_server
unfolding new_coap_server
is_made = refl

listens_again : Steps sample_go (constructed new_server) listening_again
unfolding stop restart
listens_again = steps (begins [] [] "0.0.0.0:5683" refl) (
    steps (stops_to_reload sample_config sample_world _ refl refl)
      (steps (restarts sample_world _ refl refl) (steps (begins [] [] "0.0.0.0:5683" refl) rests)))

stop_returns_example :
    ((cs' : CoapServer) × ((stop coap_server sample_world).0 ≡ returned cs')
      × (cs'.listening ≡ false))
    × ((cs' : CoapServer) × ((reload sample_go sample_config coap_server sample_world).0
          ≡ returned cs'))
stop_returns_example =
    stop_returns sample_go sample_config (some sample_publisher) sample_world is_made listens_again
      refl sample_config sample_world

is_fine : coap_server.listening ≡ true → coap_server.stop_closed ≡ true → ⊥
is_fine h k = cc k

coap_reload_eq_new_example :
    (cs' : CoapServer) × (cs'.router ≡ map (route_of sample_go) [])
    × ((new_coap_server sample_go sample_config (some sample_publisher) sample_world).0
        ≡ returned cs')
    × ((reload sample_go sample_config coap_server sample_world).0 ≡ returned cs')
coap_reload_eq_new_example =
    coap_reload_eq_new sample_go sample_config coap_server sample_world sample_world is_fine

-- A change of the configuration file at a time.
abbrev change_at : ℕ → FileEvent
change_at t = record { at = t; name = "/etc/config.yaml"; is_write = true; is_create = false }

changes : (t : ℕ) → is_change (λ s. s) "/etc/config.yaml" (change_at t) ≡ true
unfolding is_change
changes t = refl

burst_reloads_once_example :
    watch_loop
      (λ s. s)
      "/etc/config.yaml"
      9000
      none
      (change_at 1000 ∷ change_at 1200 ∷ change_at 1600 ∷ [])
    ≡ 2100 ∷ []
burst_reloads_once_example =
    burst_reloads_once (λ s. s) "/etc/config.yaml" 9000 (change_at 1000)
      (change_at 1200 ∷ change_at 1600 ∷ []) (changes 1000)
      (changes 1200, omega arith, omega arith, (changes 1600, omega arith, omega arith, tt))

change_reloads_example :
    ReloadsFrom
      (λ s. s)
      "/etc/config.yaml"
      9000
      1700
      none
      (change_at 1000 ∷ change_at 1200 ∷ change_at 1600 ∷ [])
    ⊎ IsCutOff
        (λ s. s)
        "/etc/config.yaml"
        9000
        1200
        (change_at 1000 ∷ change_at 1200 ∷ change_at 1600 ∷ [])
change_reloads_example =
    change_reloads (λ s. s) "/etc/config.yaml" 9000 0
      (change_at 1000 ∷ change_at 1200 ∷ change_at 1600 ∷ []) (change_at 1200)
      (omega arith, (omega arith, (omega arith, tt))) (tail (head refl)) (refl, inl refl)
