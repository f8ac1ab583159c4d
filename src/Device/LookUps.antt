-- ===== src/Device/LookUps.antt =====
-- The names that the calls of a client look up.
use mathlib.Core.Path.{subst}
use esp_rf_ook.Prelude.{
  ℕ, ◌≡◌, refl, sym, inl, inr, Option, none, some, List, [], ◌∷◌, ◌++◌, All, Outcome, ok, err,
  panic,
}
use esp_rf_ook.Sensor.{SensorData}
use esp_rf_ook.Network.{
  Network, Call, dns_query, connect, connect_to_broker, send_message, disconnect, bind, ask_time,
  flush, wait, close, abort, Client,
}
use esp_rf_ook.Network.Resolve.{asked}
use esp_rf_ook.Mqtt
use esp_rf_ook.Mqtt.{MqttError, publish}
use esp_rf_ook.Mqtt.Outcomes.{publish-Ends}
use esp_rf_ook.Publisher.{Jiff, post}
use esp_rf_ook.Device.{Device, delivery_with, client, publish_message}

module _ {Addr : Type 0} where
  -- The names that are looked up, the latest first.
  abbrev pub look_ups : List (Call Addr) → List (List ℕ)
  look_ups [] = []
  look_ups (dns_query name ∷ calls) = name ∷ look_ups calls
  look_ups (send_message topic text ∷ calls) = look_ups calls
  look_ups (connect addr port ∷ calls) = look_ups calls
  look_ups (connect_to_broker ∷ calls) = look_ups calls
  look_ups (disconnect ∷ calls) = look_ups calls
  look_ups (bind port ∷ calls) = look_ups calls
  look_ups (ask_time addr port ∷ calls) = look_ups calls
  look_ups (flush ∷ calls) = look_ups calls
  look_ups (wait ms ∷ calls) = look_ups calls
  look_ups (close ∷ calls) = look_ups calls
  look_ups (abort ∷ calls) = look_ups calls

  -- No name but this one is looked up.
  abbrev pub Only : List ℕ → List (Call Addr) → Type 0
  Only server calls = All (λ name. name ≡ server) (look_ups calls)

  Only-asked :
      (server : List ℕ) (addr : Option Addr) (calls : List (Call Addr))
      → Only server calls
      → Only server (asked addr server ++ calls)
  Only-asked server none calls k = (refl, k)
  Only-asked server (some a) calls k = k

module _ {Addr World : Type 0} (n : Network Addr World) where
  module _ (server topic text : List ℕ) (c : Client Addr World) where
    publish-Only :
        (r : Outcome MqttError (Unit {0})) (c' : Client Addr World)
        → Mqtt.Outcomes.Ends n topic text c server r c'
        → Only server c.calls
        → Only server c'.calls
    publish-Only (ok u) c' (a, h, _) k =
        subst (Only server) (sym h) (Only-asked server c.addr c.calls k)
    publish-Only (err Mqtt.dns_resolve_failed) c' (_, _, h) k =
        subst (Only server) (sym h) (refl, k)
    publish-Only (err Mqtt.connection_failed) c' (a, inl h, _) k =
        subst (Only server) (sym h) (Only-asked server c.addr c.calls k)
    publish-Only (err Mqtt.connection_failed) c' (a, inr h, _) k =
        subst (Only server) (sym h) (Only-asked server c.addr c.calls k)
    publish-Only (err Mqtt.publish_failed) c' (a, h, _) k =
        subst (Only server) (sym h) (Only-asked server c.addr c.calls k)
    publish-Only (err Mqtt.disconnect_failed) c' (a, h, _) k =
        subst (Only server) (sym h) (Only-asked server c.addr c.calls k)
    publish-Only (err Mqtt.flush_error) c' (a, h, _) k =
        subst (Only server) (sym h) (Only-asked server c.addr c.calls k)
    publish-Only panic c' (a, h, _) k = absurd h

  pub publish_message-Only :
      {C : Type 0} (jiff : Jiff) (server : List ℕ) (d : Device Addr World C) (m : SensorData)
      (timestamp uptime : ℕ)
      → Only server d.calls
      → Only server (publish_message n jiff server d m timestamp uptime).1.calls
  unfolding publish_message
  publish_message-Only jiff server d m timestamp uptime k =
      let p = post jiff (delivery_with m timestamp uptime panic) in
      publish-Only server p.topic p.text (client d.mqtt d) _ _
        (publish-Ends n p.topic p.text server (client d.mqtt d)) k
