-- ===== src/Mqtt/Calls.antt =====
-- `publish`, call by call.
use esp_rf_ook.Prelude.{ℕ, ◌≡◌, refl, Option, some, List, ok}
use esp_rf_ook.Network.{
  Network, Call, connect, connect_to_broker, send_message, disconnect, flush, wait, close, abort,
  Client,
}
use esp_rf_ook.Network.Program.{
  Program, ends, attempts, or_fail, call_all, call_all-attempts, resolves, call_all-resolves,
}
use esp_rf_ook.Mqtt.{
  MqttError, dns_resolve_failed, connection_failed, publish_failed, disconnect_failed, flush_error,
  mqtt_port, exchange, publish,
}

module _ {Addr : Type 0} (topic text : List ℕ) where
  unfoldable pub exchange_calls : Addr → Program Addr MqttError (Unit {0})
  exchange_calls a = attempts (connect a mqtt_port) (
      or_fail connection_failed (
        attempts connect_to_broker (
          or_fail connection_failed (
            attempts (send_message topic text) (
              or_fail publish_failed (
                attempts disconnect (
                  or_fail disconnect_failed (
                    attempts flush (
                      or_fail flush_error (
                        attempts (wait 100) λ _. attempts close λ _.
                          attempts (wait 100)
                            λ _. attempts abort λ _. ends (ok tt) (some a)))))))))))

  unfoldable pub publish_calls : List ℕ → Option Addr → Program Addr MqttError (Unit {0})
  unfolding exchange_calls
  publish_calls server = resolves server dns_resolve_failed exchange_calls

  module _ {World : Type 0} (n : Network Addr World) where
    call_all-exchange_calls :
        (a : Addr) (world : World) (calls : List (Call Addr))
        → call_all n (exchange_calls a) world calls
          ≡ exchange n a topic text (record { addr = some a; world = world; calls = calls })
    unfolding exchange exchange_calls call_all
    call_all-exchange_calls a world calls =
        call_all-attempts n (connect a mqtt_port) connection_failed _ _ (some a) world calls
          λ w₁ c₁.
            call_all-attempts n connect_to_broker connection_failed _ _ (some a) w₁ c₁ λ w₂ c₂.
              call_all-attempts n (send_message topic text) publish_failed _ _ (some a) w₂ c₂
                λ w₃ c₃.
                  call_all-attempts n disconnect disconnect_failed _ _ (some a) w₃ c₃
                    λ w₄ c₄. call_all-attempts n flush flush_error _ _ (some a) w₄ c₄ λ w₅ c₅. refl

    -- Made one after the other, they are `publish`.
    pub call_all-publish_calls :
        (server : List ℕ) (c : Client Addr World)
        → call_all n (publish_calls server c.addr) c.world c.calls ≡ publish n server topic text c
    unfolding publish publish_calls
    call_all-publish_calls server c =
        call_all-resolves n server dns_resolve_failed exchange_calls (λ a. exchange n a topic text)
          call_all-exchange_calls c.addr c.world c.calls
