-- ===== src/Programs/Full/Services.antt =====
-- What the steps of cmd/servfull that servrest does not have give back.
use servone.Prelude.{
  Bool, String, ◌≡◌, refl, arith, inl, inr, true, false, Bool-cases, Option, none, some, [], ◌∷◌,
}
use servone.Prelude.Int.{pos, leb_ℤ}
use servone.Value.{Error}
use servone.World.{World, Pool, returned, log_printf, spawn}
use servone.Config.{SnmpTrapConfig}
use servone.Kafka.Publisher.{PublisherInterface}
use servone.Mqtt.{
  Broker, new_mqtt_client, connect, connected, subscribe, request_subscribe, subscribed, disconnect,
}
use servone.Coap.Server.{CoapServer, close_stop_chan}
use servone.Coap.Server as Coap
use servone.Snmp.Client.{SnmpClient}
use servone.Snmp.Scheduler.{start_walk_scheduler}
use servone.Snmp.Trap.{
  TrapServer, TrapListener, new_trap_server, start_trap_server, stop_trap_server, close_listener,
}
use servone.Programs.Releases.{mqtt, traps, only_if, if_up, Gives, Ends, returns, Ends-and_then}

module _ (broker : Broker) where
  connected-Ends :
      (publisher : Option PublisherInterface) (e : Option Error) (w : World)
      → Ends [] w (connected broker publisher e w)
  unfolding connected
  connected-Ends publisher none w = returns _ refl (refl, ([], refl, refl))
  connected-Ends publisher (some e) w = returns _ refl (refl, ([], refl, refl))

  pub new_mqtt_client-Ends :
      (address client_id : String) (publisher : Option PublisherInterface) (w : World)
      → Ends [] w (new_mqtt_client broker address client_id publisher w)
  unfolding new_mqtt_client connect
  new_mqtt_client-Ends address client_id publisher w =
      let answered = connect broker address client_id w in
      Ends-and_then [] w answered (connected broker publisher)
        (returns _ refl (refl, ([], refl, refl)))
        (λ answer _ _. connected-Ends publisher answer answered.1)

  subscribed-Ends : (e : Option Error) (w : World) → Ends [] w (subscribed broker e w)
  unfolding subscribed log_printf
  subscribed-Ends none w = returns _ refl (refl, ([], refl, refl))
  subscribed-Ends (some e) w = returns _ refl (refl, ([], refl, refl))

  pub subscribe-Ends : (topic : String) (w : World) → Ends [] w (subscribe broker topic w)
  unfolding subscribe request_subscribe
  subscribe-Ends topic w =
      let answered = request_subscribe broker topic w in
      Ends-and_then [] w answered (subscribed broker) (returns _ refl (refl, ([], refl, refl)))
        (λ answer _ _. subscribed-Ends answer answered.1)

  pub disconnect-Gives :
      (w : World) → Gives (if_up broker.is_connected mqtt ∷ []) w (disconnect broker w).1
  unfolding disconnect log_printf
  disconnect-Gives w = elim (Bool-cases (broker.is_connected w.calls)) [
    | inl is_so ↦ rw is_so (refl, (mqtt ∷ [], inr (w.calls, [], is_so, refl, refl), refl))
    | inr not_so ↦ rw not_so (refl, ([], inl (w.calls, not_so, refl), refl))
  ]

pub start_walk_scheduler-Ends : (c : SnmpClient) (w : World) → Ends [] w (start_walk_scheduler c w)
unfolding start_walk_scheduler log_printf spawn
start_walk_scheduler-Ends c w = elim (Bool-cases (leb_ℤ c.config.term (pos 0))) [
  | inl disabled ↦ rw disabled (returns false refl (refl, ([], refl, refl)))
  | inr enabled ↦ rw enabled (returns true refl (refl, ([], refl, refl)))
]

pub start_trap_server-Ends : (ts : TrapServer) (w : World) → Ends [] w (start_trap_server ts w)
unfolding start_trap_server log_printf spawn
start_trap_server-Ends ts w = elim (Bool-cases ts.config.enabled) [
  | inl is_so ↦ rw is_so (returns _ refl (refl, ([], refl, refl)))
  | inr not_so ↦ rw not_so (returns _ refl (refl, ([], refl, refl)))
]

-- Whether there is a trap listener.
abbrev pub is_open : Option TrapListener → Bool
is_open none = false
is_open (some l) = true

-- There is one after the start exactly if the configuration enables it.
pub start_trap_server-is_open :
    (cfg : SnmpTrapConfig) (publisher : Option PublisherInterface) (db : Option Pool) (w : World)
    {ts : TrapServer} {e : Option Error}
    → (start_trap_server (new_trap_server cfg publisher db) w).0 ≡ returned (ts, e)
    → is_open ts.listener ≡ cfg.enabled
unfolding start_trap_server new_trap_server log_printf spawn
start_trap_server-is_open cfg publisher db w started = elim (Bool-cases cfg.enabled) [
  | inl is_so ↦ ground (arith, started, is_so)
  | inr not_so ↦ ground (arith, started, not_so)
]

pub stop_trap_server-Gives :
    (ts : TrapServer) (w : World)
    → Gives (only_if (is_open ts.listener) traps ∷ []) w (stop_trap_server ts w).1
unfolding stop_trap_server close_listener log_printf
stop_trap_server-Gives ts w =
    elim ts.listener
      as (λ l.
        Gives (only_if (is_open l) traps ∷ []) w
          (stop_trap_server (record ts { listener = l }) w).1) [
            | none ↦ (refl, ([], refl, refl))
            | some listener ↦ (refl, (traps ∷ [], ([], refl, refl), refl))
          ]

-- The channel is not closed, or the server does not listen.
abbrev pub CanStop : CoapServer → Type 0
CanStop cs = cs.listening ≡ true → cs.stop_closed ≡ true → ⊥

pub stop-Ends : (cs : CoapServer) (w : World) → CanStop cs → Ends [] w (Coap.stop cs w)
unfolding Coap.stop close_stop_chan log_printf
stop-Ends cs w fine = elim (Bool-cases cs.listening) [
  | inr quiet ↦ rw quiet (returns _ refl (refl, ([], refl, refl)))
  | inl listens ↦ elim (Bool-cases cs.stop_closed) [
    | inl closed ↦ elim (fine listens closed) [ ]
    | inr is_open ↦ rw (listens, is_open) (returns _ refl (refl, ([], refl, refl)))
  ]
]
