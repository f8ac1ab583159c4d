-- ===== src/Mqtt.antt =====
-- `Mqtt` of src/mqtt.rs: a message is published over a connection of its own.
pub mod Answered
pub mod Outcomes
pub mod Retry
pub mod Calls
use esp_rf_ook.Prelude.{ℕ, Option, none, List, []}
use esp_rf_ook.Network.{
  Network, Call, connect, connect_to_broker, send_message, disconnect, flush, wait, close, abort,
  Client, M, ◌>>=◌, ◌>>◌, pure, unwrap_addr, attempt_or, effect, resolve,
}

pub data MqttError : Type 0 where
  dns_resolve_failed connection_failed publish_failed disconnect_failed flush_error : MqttError

abbrev pub mqtt_port : ℕ
mqtt_port = 1883

module _ {Addr World : Type 0} where
  -- A new client has no address.
  unfoldable pub new : World → Client Addr World
  new world = record { addr = none; world = world; calls = [] }

  -- What `publish` does once it has an address.
  unfoldable pub exchange :
      Network Addr World → Addr → List ℕ → List ℕ → M Addr World MqttError (Unit {0})
  exchange n addr topic text = do
    attempt_or n (connect addr mqtt_port) connection_failed
    attempt_or n connect_to_broker connection_failed
    attempt_or n (send_message topic text) publish_failed
    attempt_or n disconnect disconnect_failed
    attempt_or n flush flush_error
    effect n (wait 100)
    effect n close
    effect n (wait 100)
    effect n abort
    pure tt

  unfoldable pub publish :
      Network Addr World → List ℕ → List ℕ → List ℕ → M Addr World MqttError (Unit {0})
  publish n server topic text = do
    resolve n server dns_resolve_failed
    addr ← unwrap_addr
    exchange n addr topic text
