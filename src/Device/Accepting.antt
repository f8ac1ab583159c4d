-- ===== src/Device/Accepting.antt =====
-- A network that accepts every call: `Mqtt::publish` succeeds on it, and its message goes out.
use esp_rf_ook.Prelude.{
  ℕ, ◌≡◌, refl, sym, ap, ◌∙◌, inl, inr, true, some, Option-cases, List, ◌∷◌, arith, Outcome, ok,
  err, panic,
}
use esp_rf_ook.Sensor.{SensorData}
use esp_rf_ook.Network.{
  Network, Call, connect, connect_to_broker, send_message, disconnect, flush, Client, M, after,
  attempt_or, resolve,
}
use esp_rf_ook.Mqtt
use esp_rf_ook.Mqtt.{MqttError, publish}
use esp_rf_ook.Mqtt.Outcomes.{finish, with_address}
use esp_rf_ook.Publisher.{Jiff, post}
use esp_rf_ook.Device.{Device, is_ok, delivery_with, client, publish_message}
use esp_rf_ook.Device.Logged.{messages}
use esp_rf_ook.Device.Messages.{content, messages-publish_message, post-delivery_with}

module _ {Addr World : Type 0} (n : Network Addr World) where
  -- Every call succeeds, and every name has an address.
  pub record Accepts : Type 0 where
    pub query :
        (name : List ℕ) (world : World)
        → (a : Addr) × (others : List Addr) × ((n.query name world).0 ≡ some (a ∷ others))
    pub attempt : (call : Call Addr) (world : World) → (n.attempt call world).0 ≡ true

  module _ (good : Accepts) where
    attempt_goes_on :
        (call : Call Addr) (e : MqttError) (f : Unit {0} → M Addr World MqttError (Unit {0}))
        (c : Client Addr World)
        → ((c' : Client Addr World) → (f tt c').0 ≡ ok tt)
        → (after (attempt_or n call e c) f).0 ≡ ok tt
    attempt_goes_on call e f c k = rw (after, attempt_or, good.attempt call c.world) (k _)

    exchange_succeeds :
        (a : Addr) (topic text : List ℕ) (c : Client Addr World)
        → (Mqtt.exchange n a topic text c).0 ≡ ok tt
    unfolding Mqtt.exchange
    exchange_succeeds a topic text c =
        attempt_goes_on (connect a Mqtt.mqtt_port) Mqtt.connection_failed _ c λ c₁.
          attempt_goes_on connect_to_broker Mqtt.connection_failed _ c₁ λ c₂.
            attempt_goes_on (send_message topic text) Mqtt.publish_failed _ c₂ λ c₃.
              attempt_goes_on disconnect Mqtt.disconnect_failed _ c₃
                λ c₄. attempt_goes_on flush Mqtt.flush_error _ c₄ λ c₅. refl

    resolve_succeeds :
        (name : List ℕ) (e : MqttError) (c : Client Addr World)
        → ((resolve n name e c).0 ≡ ok tt) × ((a : Addr) × ((resolve n name e c).1.addr ≡ some a))
    unfolding resolve
    resolve_succeeds name e c = elim (Option-cases c.addr) [
      | inr (a, h) ↦ (ground arith, (a, ground arith))
      | inl h ↦
          let (a, others, answer) = good.query name c.world in (ground arith, (a, ground arith))
    ]

    finish_succeeds :
        (topic text : List ℕ) (q : Outcome MqttError (Unit {0}) × Client Addr World) (a : Addr)
        → q.0 ≡ ok tt
        → q.1.addr ≡ some a
        → (finish n topic text q).0 ≡ ok tt
    finish_succeeds topic text (ok u, c) a e h =
        ap (λ x. x.0) (with_address n topic text c a h) ∙ exchange_succeeds a topic text c
    finish_succeeds topic text (err x, c) a e h = cc
    finish_succeeds topic text (panic, c) a e h = cc

    publish_succeeds :
        (server topic text : List ℕ) (c : Client Addr World)
        → (publish n server topic text c).0 ≡ ok tt
    unfolding publish
    publish_succeeds server topic text c =
        let (found, (a, cached)) = resolve_succeeds server Mqtt.dns_resolve_failed c in
        finish_succeeds topic text (resolve n server Mqtt.dns_resolve_failed c) a found cached

    module _ (jiff : Jiff) (mqtt_server : List ℕ) where
      -- The publication of a message, on such a network.
      pub message_goes_out :
          {C : Type 0} (d : Device Addr World C) (m : SensorData) (timestamp uptime : ℕ)
          → let (r, c) = publish_message n jiff mqtt_server d m timestamp uptime in
            (r ≡ ok tt)
            × (messages c.calls
                ≡ content (post jiff (delivery_with m timestamp uptime (ok tt))) ∷ messages d.calls)
      unfolding publish_message
      message_goes_out d m timestamp uptime =
          let unsent = post jiff (delivery_with m timestamp uptime panic) in
          let sent = publish_succeeds mqtt_server unsent.topic unsent.text (client d.mqtt d) in
          (
            sent,
            elim (messages-publish_message n jiff mqtt_server d m timestamp uptime) [
              | inl e ↦
                  e
                  ∙ ap (λ posted. content posted ∷ messages d.calls)
                      (post-delivery_with n jiff m timestamp uptime panic (ok tt))
              | inr (failed, _) ↦ absurd (cc (sym (ap is_ok sent) ∙ failed))
            ],
          )
