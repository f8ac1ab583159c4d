-- ===== src/System.antt =====
-- The receive loop and `mqtt_publisher` of src/bin/main.rs, side by side, with MQTT_CHANNEL between
-- them. A round of the loop with its message is one step. A turn of the publisher is two, since the
-- loop may do any number of rounds between its `receive` and its end.
pub mod Refines
pub mod Reported
pub mod Progress
use esp_rf_ook.Prelude.{ℕ, ◌≡◌, Bool, Option, none, some, List, [], ◌∷◌, ◌++◌}
use esp_rf_ook.Sensor.{SensorData, PackedStruct}
use esp_rf_ook.Channel.{Channel, send_all}
use esp_rf_ook.Station.{Station, Action, Round, start, round}
use esp_rf_ook.Station.Effect.{sends}
use esp_rf_ook.Publisher.{Jiff, Delivery, Post, deliver}

-- `Channel<_, (SensorData, i64), 2>`
abbrev pub capacity : ℕ
capacity = 2

-- The loop's variables, the channel, and the publisher's: the message of its turn, once it has
-- received it, and the time of its last success.
pub record System (C : Type 0) : Type 0 where
  pub station : Station
  pub channel : C
  pub in_hand : Option (SensorData × ℕ)
  pub last_publish : ℕ

-- The message of a delivery.
abbrev pub taken : Delivery → SensorData × ℕ
taken d = (d.measurement, d.timestamp)

pub data Event : Type 0 where
  heard : Round → Event
  delivered : Delivery → Post → Event

module _ {C : Type 0} (q : Channel (SensorData × ℕ) C) where
  -- Neither task has done anything.
  abbrev pub fresh : ℕ → ℕ → ℕ → System C
  fresh last_time_sync last_publish publisher_now = record {
    station = start last_time_sync last_publish;
    channel = q.empty;
    in_hand = none;
    last_publish = publisher_now;
  }

  module _ (is_timestamp : ℕ → Bool) (p : PackedStruct) (jiff : Jiff) where
    -- Either task takes a step, with the events in it. The loop's `send` waits until there is room in
    -- the channel, and the publisher's `receive` until there is a message. The rest of a turn touches
    -- only the publisher's own variables and the network.
    pub data Step : System C → List Event → System C → Type 0 where
      receives :
          (s : System C) (r : Round) (station : Station) (actions : List Action) (channel : C)
          → round is_timestamp p s.station r ≡ some (station, actions)
          → send_all q (sends actions) s.channel ≡ some channel
          → Step s (heard r ∷ []) (record s { station = station; channel = channel })
      takes :
          (s : System C) (m : SensorData × ℕ) (channel : C)
          → s.in_hand ≡ none
          → q.receive s.channel ≡ some (m, channel)
          → Step s [] (record s { channel = channel; in_hand = some m })
      publishes :
          (s : System C) (d : Delivery) (last : ℕ) (posted : Post)
          → s.in_hand ≡ some (taken d)
          → deliver jiff s.last_publish d ≡ some (last, posted)
          → Step s (delivered d posted ∷ []) (record s { in_hand = none; last_publish = last })

    -- Any sequence of steps, with its events, the latest first.
    pub data Steps (s : System C) : List Event → System C → Type 0 where
      here : Steps s [] s
      next :
          {es : List Event} {t u : System C} (new : List Event)
          → Steps s es t
          → Step t new u
          → Steps s (new ++ es) u
