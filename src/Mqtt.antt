-- ===== src/Mqtt.antt =====
-- mqttclient/mqtt.go: the client of the MQTT broker, and what it does with a message.
pub mod Laws
use servone.Prelude.{ℕ, String, Bool, Option, none, some, if◌then◌else◌}
use servone.Prelude.Int.{pos}
use servone.Prelude.Text.{◌<>◌}
use servone.Value.{Error, Result, ok, err, int, text, Fields, end, field}
use servone.World.{
  Env, Outcome, returned, Action, ◌>>=◌, ◌>>◌, done, panic, now, log_printf, log_error,
  record_event, mqtt_connected, mqtt_subscribed, mqtt_disconnected,
}
use servone.Kafka.Publisher.{PublisherInterface}
use servone.Db.Global.{save_mqtt_message}

-- The broker as the paho client shows it, at the number of the call.
pub record Broker : Type 0 where
  pub connect : ℕ → String → String → Option Error
  pub subscribe : ℕ → String → Option Error
  pub is_connected : ℕ → Bool

-- `MQTTClient`; its field `client` is the connection that `NewMQTTClient` opened.
pub record MqttClient : Type 0 where
  pub kafka_publisher : Option PublisherInterface

module _ (broker : Broker) where
  unfoldable pub connect : String → String → Action (Option Error)
  connect address client_id w =
      let answer = broker.connect w.calls address client_id in
      (returned answer, record_event (mqtt_connected address client_id answer) w)

  unfoldable pub connected : Option PublisherInterface → Option Error → Action (Result MqttClient)
  connected kafka_publisher (some e) = done (err e)
  connected kafka_publisher none = done (ok (record { kafka_publisher = kafka_publisher }))

  -- `NewMQTTClient`; the configuration that it is given is not used.
  unfoldable pub new_mqtt_client :
      String → String → Option PublisherInterface → Action (Result MqttClient)
  unfolding connect connected
  new_mqtt_client address client_id kafka_publisher = do
    answer ← connect address client_id
    connected kafka_publisher answer

  -- `client.Subscribe(topic, 1, …)` with the wait for its token.
  unfoldable pub request_subscribe : String → Action (Option Error)
  request_subscribe topic w =
      let answer = broker.subscribe w.calls topic in
      (returned answer, record_event (mqtt_subscribed topic 1 answer) w)

  unfoldable pub subscribed : Option Error → Action (Option Error)
  unfolding log_printf
  subscribed (some e) = done (some e)
  subscribed none = do log_printf "Subscribed to topic: %s"; done none

  -- `MQTTClient.Subscribe`, without the messages that come later.
  unfoldable pub subscribe : String → Action (Option Error)
  unfolding request_subscribe subscribed
  subscribe topic = do answer ← request_subscribe topic; subscribed answer

  -- `MQTTClient.Disconnect`, which waits 250 ms.
  unfoldable pub disconnect : Action Unit
  unfolding log_printf
  disconnect w =
      if broker.is_connected w.calls
      then log_printf "Disconnected from MQTT broker" (record_event (mqtt_disconnected 250) w)
      else (returned tt, w)

-- `map[string]interface{}{"topic": …, "payload": …, "received": …}`.
abbrev pub mqtt_payload : String → String → ℕ → Fields
mqtt_payload topic payload received =
    field "topic" (text topic)
      (field "payload" (text payload) (field "received" (int (pos received)) end))

module _ (env : Env) where
  -- A nil publisher is a nil dereference.
  publish_mqtt : Option PublisherInterface → String → Fields → Action Unit
  unfolding log_error
  publish_mqtt none topic payload = panic "nil pointer dereference"
  publish_mqtt (some publisher) topic payload = do
    e ← publisher.publish ("mq." <> topic) payload
    log_error "Failed to publish MQTT message to Kafka: %v" e

  -- The callback of `Subscribe` for one message.
  unfoldable pub handle_message : MqttClient → String → String → Action Unit
  unfolding log_printf now save_mqtt_message log_error publish_mqtt
  handle_message c topic payload = do
    log_printf "Received message on topic: %s and message : %s"
    received ← now env
    e ← save_mqtt_message env topic payload received
    log_error "Failed to save MQTT message to database: %v" e
    publish_mqtt c.kafka_publisher topic (mqtt_payload topic payload received)
