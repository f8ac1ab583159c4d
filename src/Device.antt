-- ===== src/Device.antt =====
-- `main` of src/bin/main.rs with its two clients: the loop asks `Ntpc::get_time`, the publisher calls
-- `Mqtt::publish`, and both go over the one network.
pub mod Simulates
pub mod Logged
pub mod Messages
pub mod LookUps
pub mod PowerUp
pub mod Accepting
pub mod Arrives
pub mod Frames
use esp_rf_ook.Prelude.{
  ℕ, ◌+◌, ◌≤◌, ◌≡◌, refl, Bool, true, false, Option, none, some, List, [], ◌∷◌, ◌++◌, ltb,
  if◌then◌else◌, length, Outcome, ok, err, panic,
}
use esp_rf_ook.Prelude.Words.{sub_u64}
use esp_rf_ook.Text.{codes}
use esp_rf_ook.Sensor.{SensorData, PackedStruct}
use esp_rf_ook.Network.{Network, Call, Client}
use esp_rf_ook.Ntpc.{NtpcError, get_time}
use esp_rf_ook.Mqtt.{MqttError, publish}
use esp_rf_ook.Station.{Station, Action, Received, Round, resync_after, start, round}
use esp_rf_ook.Station.Effect.{sends}
use esp_rf_ook.Publisher.{Jiff, Delivery, Post, post, deliver}
use esp_rf_ook.Channel.{Channel, send_all}
use esp_rf_ook.System.{Event, heard, delivered}

abbrev pub ntp_server : List ℕ
ntp_server = codes "pool.ntp.org"

-- The variables of the two tasks, the channel, the address that each client has cached, the world
-- behind the network, and the calls made so far, the latest first. Between the hourly check of a
-- round and the rest of the round, `asked` is the clock that was checked and the time that came.
pub record Device (Addr World C : Type 0) : Type 0 where
  pub station : Station
  pub asked : Option (ℕ × ℕ)
  pub channel : C
  pub in_hand : Option (SensorData × ℕ)
  pub last_publish : ℕ
  pub ntpc : Option Addr
  pub mqtt : Option Addr
  pub world : World
  pub calls : List (Call Addr)

-- What the clock and the receiver answer in one round.
pub record Readings : Type 0 where
  pub checked : ℕ
  pub synced : ℕ
  pub shown : ℕ
  pub received : Received
  pub now : ℕ

-- The round, given what `get_time` returns in it.
abbrev pub round_with : Readings → Outcome NtpcError ℕ → Round
round_with h ntp = record {
  checked = h.checked;
  ntp = ntp;
  synced = h.synced;
  shown = h.shown;
  received = h.received;
  now = h.now;
}

abbrev pub is_ok : {E A : Type 0} → Outcome E A → Bool
is_ok (ok a) = true
is_ok (err e) = false
is_ok panic = false

abbrev pub delivery_with : SensorData → ℕ → ℕ → Outcome MqttError (Unit {0}) → Delivery
delivery_with m timestamp uptime result = record {
  measurement = m;
  timestamp = timestamp;
  uptime = uptime;
  published = is_ok result;
}

module _ {Addr World C : Type 0} where
  -- A client with this cached address, as it is when it holds the lock on the network stack.
  abbrev pub client : Option Addr → Device Addr World C → Client Addr World
  client addr d = record { addr = addr; world = d.world; calls = d.calls }

  module _ (n : Network Addr World) where
    -- `get_time`, if the hour is over; the reply is not looked at otherwise.
    unfoldable pub time_for : Device Addr World C → ℕ → Outcome NtpcError ℕ × Client Addr World
    time_for d checked =
        if ltb resync_after (sub_u64 checked d.station.last_time_sync)
        then get_time n ntp_server (client d.ntpc d)
        else (ok 0, client d.ntpc d)

    -- The text is made before it is known whether it is published.
    unfoldable pub publish_message :
        Jiff
        → List ℕ
        → Device Addr World C
        → SensorData
        → ℕ
        → ℕ
        → Outcome MqttError (Unit {0}) × Client Addr World
    publish_message jiff server d m timestamp uptime =
        let p = post jiff (delivery_with m timestamp uptime panic) in
        publish n server p.topic p.text (client d.mqtt d)

    module _ (q : Channel (SensorData × ℕ) C) (is_timestamp : ℕ → Bool) (p : PackedStruct)
        (jiff : Jiff) (mqtt_server : List ℕ) where
      -- The hourly check of a round or the rest of it, the receive of the publisher or the rest of its
      -- turn, with the events of the system in it. An error of `get_time` ends the loop.
      pub data Step : Device Addr World C → List Event → Device Addr World C → Type 0 where
        asks :
            (d : Device Addr World C) (checked time : ℕ) (c : Client Addr World)
            → d.asked ≡ none
            → time_for d checked ≡ (ok time, c)
            → Step d [] (record d {
              asked = some (checked, time);
              ntpc = c.addr;
              world = c.world;
              calls = c.calls;
            })
        listens :
            (d : Device Addr World C) (h : Readings) (time : ℕ) (station : Station)
            (actions : List Action) (channel : C)
            → d.asked ≡ some (h.checked, time)
            → round is_timestamp p d.station (round_with h (ok time)) ≡ some (station, actions)
            → send_all q (sends actions) d.channel ≡ some channel
            → Step d
                (heard (round_with h (ok time)) ∷ [])
                (record d { station = station; asked = none; channel = channel })
        takes :
            (d : Device Addr World C) (m : SensorData × ℕ) (channel : C)
            → d.in_hand ≡ none
            → q.receive d.channel ≡ some (m, channel)
            → Step d [] (record d { channel = channel; in_hand = some m })
        publishes :
            (d : Device Addr World C) (m : SensorData) (timestamp uptime : ℕ)
            (result : Outcome MqttError (Unit {0})) (c : Client Addr World) (last : ℕ)
            (posted : Post)
            → d.in_hand ≡ some (m, timestamp)
            → publish_message jiff mqtt_server d m timestamp uptime ≡ (result, c)
            → deliver jiff d.last_publish (delivery_with m timestamp uptime result)
              ≡ some (last, posted)
            → Step d (delivered (delivery_with m timestamp uptime result) posted ∷ []) (record d {
              in_hand = none;
              last_publish = last;
              mqtt = c.addr;
              world = c.world;
              calls = c.calls;
            })

      pub data Steps (s : Device Addr World C) : List Event → Device Addr World C → Type 0 where
        here : Steps s [] s
        next :
            {es : List Event} {t u : Device Addr World C} (new : List Event)
            → Steps s es t
            → Step t new u
            → Steps s (new ++ es) u

      -- A round with nothing of the publisher in it.
      pub hears :
          {s : Device Addr World C} {es : List Event} (d : Device Addr World C) (h : Readings)
          (time : ℕ) (c : Client Addr World) (station : Station) (actions : List Action)
          (channel : C)
          → Steps s es d
          → d.asked ≡ none
          → time_for d h.checked ≡ (ok time, c)
          → round is_timestamp p d.station (round_with h (ok time)) ≡ some (station, actions)
          → send_all q (sends actions) d.channel ≡ some channel
          → Steps s (heard (round_with h (ok time)) ∷ es) (record d {
            station = station;
            asked = none;
            channel = channel;
            ntpc = c.addr;
            world = c.world;
            calls = c.calls;
          })
      hears d h time c station actions channel steps idle answered done sent =
          next _ (next _ steps (asks d h.checked time c idle answered))
            (listens _ h time station actions channel refl done sent)

  -- The device when both tasks start: the time client has the address that the start of `main` left
  -- it, the MQTT client is new.
  abbrev pub started :
      Channel (SensorData × ℕ) C → ℕ → ℕ → ℕ → Option Addr → World → Device Addr World C
  started q last_time_sync last_publish publisher_now ntpc world = record {
    station = start last_time_sync last_publish;
    asked = none;
    channel = q.empty;
    in_hand = none;
    last_publish = publisher_now;
    ntpc = ntpc;
    mqtt = none;
    world = world;
    calls = [];
  }
