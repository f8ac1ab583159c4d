-- ===== src/Device/Frames.antt =====
-- From the first frame to the broker: a sensor that is heard four times.
use esp_rf_ook.Prelude.{
  ℕ, suc, ◌<◌, ◌≡◌, refl, ap, ◌∙◌, Bool, true, false, Option, none, some, List, [], ◌∷◌, arith,
  length, ltb, ok,
}
use esp_rf_ook.Prelude.Words.{sub_u64, gt_i64}
use esp_rf_ook.Sensor.{SensorData, PackedStruct, equal}
use esp_rf_ook.Sensor.Equal.{equal_trans}
use esp_rf_ook.Decoder.{PulseCode, decode}
use esp_rf_ook.Network.{Network}
use esp_rf_ook.Station.{symbols, feed, publish_after, resync_after, start, on_measurement}
use esp_rf_ook.Station.Effect.{sends}
use esp_rf_ook.Station.Early.{early_round, Counted, on_measurement-Counted}
use esp_rf_ook.Publisher.{Jiff, post, silence_limit}
use esp_rf_ook.Channel.{Channel, IsChannel, send_all}
use esp_rf_ook.System.{Event, heard, delivered, capacity}
use esp_rf_ook.Device.{
  Device, Readings, Steps, here, hears, round_with, delivery_with, client, time_for, started,
}
use esp_rf_ook.Device.Logged.{messages}
use esp_rf_ook.Device.Messages.{content}
use esp_rf_ook.Device.Accepting.{Accepts}
use esp_rf_ook.Device.Arrives.{confirmed_measurement_arrives}

module _ (is_timestamp : ℕ → Bool) (p : PackedStruct) where
  -- A round within the hour after `synced`, which decodes the measurement, equal to `m`, from its buffer.
  pub record Hears (m : SensorData) (synced : ℕ) (measured : SensorData) (h : Readings)
      : Type 0 where
    pub buffer : List PulseCode
    pub symbol_count : ℕ
    pub received : h.received ≡ symbols buffer symbol_count
    pub full : length buffer ≡ 64
    pub decoded : decode p buffer 1 symbol_count ≡ ok measured
    pub same : equal m measured ≡ true
    pub early : ltb resync_after (sub_u64 h.checked synced) ≡ false
    pub shown : is_timestamp h.shown ≡ true

module _ {Addr World C : Type 0} (q : Channel (SensorData × ℕ) C) (law : IsChannel capacity q) where
  -- The device at the start of a round, the publisher idle, after exactly `k` measurements that equal `m`.
  record IsCounting (k : ℕ) (m : SensorData) (synced last turn : ℕ) (d : Device Addr World C)
      : Type 0 where
    counted : Counted k m synced last d.station
    idle : d.asked ≡ none
    empty : law.held d.channel ≡ []
    unhanded : d.in_hand ≡ none
    last_turn : d.last_publish ≡ turn
    silent : d.calls ≡ []

  module _ (n : Network Addr World) where
    time_for_early :
        (d : Device Addr World C) (checked synced : ℕ)
        → d.station.last_time_sync ≡ synced
        → ltb resync_after (sub_u64 checked synced) ≡ false
        → time_for n d checked ≡ (ok 0, client d.ntpc d)
    unfolding time_for
    time_for_early d checked synced e early = rw (e, early)

    module _ (is_timestamp : ℕ → Bool) (p : PackedStruct) (jiff : Jiff) (mqtt_server : List ℕ)
        (m : SensorData) (synced last turn : ℕ) where
      counts_one :
          (k : ℕ) (d : Device Addr World C) (h : Readings) (measured : SensorData)
          {s : Device Addr World C} {es : List Event}
          → k < 3
          → Hears is_timestamp p m synced measured h
          → IsCounting k m synced last turn d
          → Steps n q is_timestamp p jiff mqtt_server s es d
          → (d' : Device Addr World C) × IsCounting (suc k) m synced last turn d'
            × Steps n q is_timestamp p jiff mqtt_server s (heard (round_with h (ok 0)) ∷ es) d'
      unfolding send_all
      counts_one k d h measured few f c steps =
          let (counted, quiet) =
            on_measurement-Counted k m synced last d.station h.now measured few c.counted f.same in
          let acts = feed ∷ feed ∷ (on_measurement d.station h.now measured).1 in
          let unsent : send_all q (sends acts) d.channel ≡ some d.channel =
            ap (λ l. send_all q (sends (feed ∷ feed ∷ l)) d.channel) quiet in
          let e = c.counted.last_time_sync in
          (
            _,
            record {
              counted = counted;
              idle = refl;
              empty = c.empty;
              unhanded = c.unhanded;
              last_turn = c.last_turn;
              silent = c.silent;
            },
            hears n q is_timestamp p jiff mqtt_server d h 0 (client d.ntpc d) _ acts d.channel steps
                c.idle (time_for_early d h.checked synced e f.early)
                (early_round is_timestamp p d.station (round_with h (ok 0)) f.buffer f.symbol_count
                  measured (rw e f.early) f.received f.decoded)
                unsent,
          )

      three_counted :
          (d : Device Addr World C) (h₁ h₂ h₃ : Readings) (m₁ m₂ m₃ : SensorData)
          {s : Device Addr World C} {es : List Event}
          → Hears is_timestamp p m synced m₁ h₁
          → Hears is_timestamp p m synced m₂ h₂
          → Hears is_timestamp p m synced m₃ h₃
          → IsCounting 0 m synced last turn d
          → Steps n q is_timestamp p jiff mqtt_server s es d
          → (d' : Device Addr World C) × IsCounting 3 m synced last turn d'
            × Steps n q is_timestamp p jiff mqtt_server s
                (heard (round_with h₃ (ok 0))
                  ∷ heard (round_with h₂ (ok 0))
                  ∷ heard (round_with h₁ (ok 0))
                  ∷ es)
                d'
      three_counted d h₁ h₂ h₃ m₁ m₂ m₃ f₁ f₂ f₃ c steps =
          let (d₁, c₁, steps₁) = counts_one 0 d h₁ m₁ (omega arith) f₁ c steps in
          let (d₂, c₂, steps₂) = counts_one 1 d₁ h₂ m₂ (omega arith) f₂ c₁ steps₁ in
          counts_one 2 d₂ h₃ m₃ (omega arith) f₃ c₂ steps₂

  IsCounting-started :
      (m : SensorData) (last_time_sync last_publish publisher_now : ℕ) (ntpc : Option Addr)
      (world : World)
      → IsCounting 0 m last_time_sync last_publish publisher_now
          (started q last_time_sync last_publish publisher_now ntpc world)
  unfolding start
  IsCounting-started m last_time_sync last_publish publisher_now ntpc world = record {
    counted = record {
      measurement_cnt = refl;
      tracked = λ h. absurd (omega arith);
      last_publish = refl;
      last_time_sync = refl;
    };
    idle = refl;
    empty = law.held-empty;
    unhanded = refl;
    last_turn = refl;
    silent = refl;
  }

module _ {Addr World C : Type 0} (n : Network Addr World) (q : Channel (SensorData × ℕ) C)
    (law : IsChannel capacity q) (is_timestamp : ℕ → Bool) (p : PackedStruct) (jiff : Jiff)
    (mqtt_server : List ℕ) (last_time_sync last_publish publisher_now : ℕ) (ntpc : Option Addr)
    (world : World) where
  -- Four frames make a message: if the first four rounds of the loop fall into its first hour and each
  -- decodes a measurement that equals `m` from its buffer of 64 pulse codes, the fourth of them more than
  -- five seconds after the start of the loop and not more than 300 after that of the publisher, the times
  -- that are shown and printed are timestamps, and the network accepts every call and knows every name,
  -- then these rounds and one turn of the publisher can take place, and they send exactly one message to
  -- the broker, the one that reports the fourth measurement; for every channel that keeps the laws of
  -- a queue.
  pub four_frames_arrive :
      (m m₁ m₂ m₃ measured : SensorData) (h₁ h₂ h₃ h : Readings) (uptime : ℕ)
      → Accepts n
      → Hears is_timestamp p m last_time_sync m₁ h₁
      → Hears is_timestamp p m last_time_sync m₂ h₂
      → Hears is_timestamp p m last_time_sync m₃ h₃
      → Hears is_timestamp p m last_time_sync measured h
      → publish_after < sub_u64 h.now last_publish
      → gt_i64 (sub_u64 h.now publisher_now) silence_limit ≡ false
      → jiff.is_timestamp h.now ≡ true
      → let delivery = delivery_with measured h.now uptime (ok tt) in
        let posted = post jiff delivery in
        (d : Device Addr World C) × Steps n q is_timestamp p jiff mqtt_server
          (started q last_time_sync last_publish publisher_now ntpc world)
          (delivered delivery posted
            ∷ heard (round_with h (ok 0))
            ∷ heard (round_with h₃ (ok 0))
            ∷ heard (round_with h₂ (ok 0))
            ∷ heard (round_with h₁ (ok 0))
            ∷ [])
          d
        × (messages d.calls ≡ content posted ∷ [])
        × (law.held d.channel ≡ [])
        × (d.in_hand ≡ none)
        × (d.station.last_publish ≡ h.now)
        × (d.last_publish ≡ h.now)
  four_frames_arrive m m₁ m₂ m₃ measured h₁ h₂ h₃ h uptime good f₁ f₂ f₃ f late timely printed =
      let (d₃, c₃, steps₃) =
        three_counted q law n is_timestamp p jiff mqtt_server m last_time_sync last_publish
          publisher_now _ h₁ h₂ h₃ m₁ m₂ m₃ f₁ f₂ f₃
          (IsCounting-started q law m last_time_sync last_publish publisher_now ntpc world) here in
      let k = c₃.counted in
      let (d, steps, sent, gone, free, noted, noted') =
        confirmed_measurement_arrives n q law is_timestamp p jiff mqtt_server d₃ h f.buffer
          f.symbol_count measured 0 uptime (client d₃.ntpc d₃) steps₃ good f.received f.full
          f.decoded c₃.idle
          (time_for_early q law n d₃ h.checked last_time_sync k.last_time_sync f.early) f.shown
          (equal_trans d₃.station.measurement m measured (k.tracked (omega arith)) f.same)
          k.measurement_cnt (rw k.last_publish late) c₃.empty c₃.unhanded (rw c₃.last_turn timely)
          printed in
      (
        d,
        steps,
        sent
            ∙ ap
                (λ calls.
                  content (post jiff (delivery_with measured h.now uptime (ok tt)))
                  ∷ messages calls)
                c₃.silent,
        gone,
        free,
        noted,
        noted',
      )
