-- ===== src/Device/Arrives.antt =====
-- From the antenna to the broker: a measurement that is confirmed arrives.
use mathlib.Core.Path.{subst}
use esp_rf_ook.Prelude.{
  ℕ, ◌<◌, ◌≡◌, refl, sym, ap, ◌∙◌, inl, inr, Bool, true, false, none, some, List, [], ◌∷◌, ◌++◌,
  arith, length, ok,
}
use esp_rf_ook.Prelude.Words.{sub_u64, gt_i64}
use esp_rf_ook.Sensor.{SensorData, PackedStruct, equal}
use esp_rf_ook.Decoder.{PulseCode, decode}
use esp_rf_ook.Network.{Network, Client}
use esp_rf_ook.Station.{Station, Action, symbols, Round, publish_after, round}
use esp_rf_ook.Station.Cases.{on_measurement_cases}
use esp_rf_ook.Station.Effect.{sends, accepted_one, Effect, round-Effect}
use esp_rf_ook.Station.Panics.{HasBuffer, round_served}
use esp_rf_ook.Publisher.{Jiff, post, deliver, silence_limit}
use esp_rf_ook.Channel.{Channel, IsChannel, send_all, send_all_one}
use esp_rf_ook.System.{Event, heard, delivered, capacity}
use esp_rf_ook.Device.{
  Device, Readings, takes, publishes, hears, Steps, next, round_with, delivery_with, time_for,
  publish_message,
}
use esp_rf_ook.Device.Logged.{messages}
use esp_rf_ook.Device.Messages.{content, messages-time_for}
use esp_rf_ook.Device.Accepting.{Accepts, message_goes_out}

-- The fourth frame, as a round.
confirmed_round :
    (is_timestamp : ℕ → Bool) (p : PackedStruct) (s : Station) (r : Round) (buffer : List PulseCode)
    (k : ℕ) (m : SensorData) (time : ℕ)
    → r.received ≡ symbols buffer k
    → length buffer ≡ 64
    → decode p buffer 1 k ≡ ok m
    → r.ntp ≡ ok time
    → is_timestamp r.shown ≡ true
    → equal s.measurement m ≡ true
    → s.measurement_cnt ≡ 3
    → publish_after < sub_u64 r.now s.last_publish
    → (s' : Station) × (acts : List Action) × (round is_timestamp p s r ≡ some (s', acts))
      × (sends acts ≡ (m, r.now) ∷ [])
      × (s'.last_publish ≡ r.now)
confirmed_round is_timestamp p s r buffer k m time heard' full decoded good shown same three late =
    let buffered = subst HasBuffer (sym heard') full in
    let (s', acts, e) = round_served is_timestamp p s r (buffered, (time, good, shown)) in
    let one = accepted_one p r buffer k heard' decoded in
    let (agree, sent) =
      subst (λ ms. Effect s r.now ms s' (sends acts)) one (round-Effect is_timestamp p s r e) in
    elim (on_measurement_cases s r.now m) [
      | inl (other, _) ↦ absurd (cc (sym same ∙ other))
      | inr (inl (_, _, _, done)) ↦ (
        s',
        acts,
        e,
        sent ∙ ap (λ x. sends x.1) done,
        sym agree.last_publish ∙ ap (λ x. x.0.last_publish) done,
      )
      | inr (inr (inl (_, few, _))) ↦ absurd (omega arith)
      | inr (inr (inr (_, _, wait, _))) ↦ absurd (omega (arith, wait three))
    ]

module _ {Addr World C : Type 0} (n : Network Addr World) (q : Channel (SensorData × ℕ) C)
    (law : IsChannel capacity q) (is_timestamp : ℕ → Bool) (p : PackedStruct) (jiff : Jiff)
    (mqtt_server : List ℕ) where
  -- A message in an idle device goes through: sent, received and published.
  goes_through :
      {s : Device Addr World C} {es : List Event} (d : Device Addr World C) (m : SensorData)
      (now uptime : ℕ) (channel : C)
      → Accepts n
      → Steps n q is_timestamp p jiff mqtt_server s es d
      → d.in_hand ≡ none
      → law.held d.channel ≡ (m, now) ∷ []
      → gt_i64 (sub_u64 now d.last_publish) silence_limit ≡ false
      → jiff.is_timestamp now ≡ true
      → let delivery = delivery_with m now uptime (ok tt) in
        let posted = post jiff delivery in
        (d' : Device Addr World C) × Steps n q is_timestamp p jiff mqtt_server s
          (delivered delivery posted ∷ es)
          d'
        × (messages d'.calls ≡ content posted ∷ messages d.calls)
        × (law.held d'.channel ≡ [])
        × (d'.in_hand ≡ none)
        × (d'.station ≡ d.station)
        × (d'.last_publish ≡ now)
  unfolding deliver
  goes_through d m now uptime channel good steps idle front timely printed =
      let (c, received, gone) = law.receive_cons d.channel (m, now) [] front in
      let d₁ : Device Addr World C = record d { channel = c; in_hand = some (m, now) } in
      let (published, out) = message_goes_out n good jiff mqtt_server d₁ m now uptime in
      let r = publish_message n jiff mqtt_server d₁ m now uptime in
      (
        _,
        next _ (next _ steps (takes d (m, now) c idle received)) (
            publishes d₁ m now uptime (ok tt) r.1 now _ refl (ap (λ x. (x, r.1)) published)
              (ground arith)),
        out,
        gone,
        refl,
        refl,
        refl,
      )

  -- A confirmed measurement arrives: after any run, let the device be at the start of a round, have
  -- counted a measurement three times and decode an equal one from its buffer of 64 pulse codes, more
  -- than five seconds after the loop's last message and not more than 300 after the last success of the
  -- publisher, with the channel empty and the publisher idle. If the hourly check is not due or gets a time, the times that are
  -- shown and printed are timestamps, and the network accepts every call and knows every name, then this
  -- round and one turn of the publisher send exactly one message to the broker, the one that reports the
  -- measurement; the channel is empty and the publisher idle again, and both tasks note the time of the
  -- round. This is so for every channel that keeps the laws of a queue.
  pub confirmed_measurement_arrives :
      {s : Device Addr World C} {es : List Event} (d : Device Addr World C) (h : Readings)
      (buffer : List PulseCode) (k : ℕ) (m : SensorData) (time uptime : ℕ) (c : Client Addr World)
      → Steps n q is_timestamp p jiff mqtt_server s es d
      → Accepts n
      → h.received ≡ symbols buffer k
      → length buffer ≡ 64
      → decode p buffer 1 k ≡ ok m
      → d.asked ≡ none
      → time_for n d h.checked ≡ (ok time, c)
      → is_timestamp h.shown ≡ true
      → equal d.station.measurement m ≡ true
      → d.station.measurement_cnt ≡ 3
      → publish_after < sub_u64 h.now d.station.last_publish
      → law.held d.channel ≡ []
      → d.in_hand ≡ none
      → gt_i64 (sub_u64 h.now d.last_publish) silence_limit ≡ false
      → jiff.is_timestamp h.now ≡ true
      → let delivery = delivery_with m h.now uptime (ok tt) in
        let posted = post jiff delivery in
        (d' : Device Addr World C) × Steps n q is_timestamp p jiff mqtt_server s
          (delivered delivery posted ∷ heard (round_with h (ok time)) ∷ es)
          d'
        × (messages d'.calls ≡ content posted ∷ messages d.calls)
        × (law.held d'.channel ≡ [])
        × (d'.in_hand ≡ none)
        × (d'.station.last_publish ≡ h.now)
        × (d'.last_publish ≡ h.now)
  confirmed_measurement_arrives d h buffer k m time uptime c steps good heard' full decoded idle
        asked shown same three late empty unhanded timely printed =
      let (s', acts, e, sent, noted) =
        confirmed_round is_timestamp p d.station (round_with h (ok time)) buffer k m time heard'
          full decoded refl shown same three late in
      let (channel, stored, last) =
        send_all_one capacity q law (m, h.now) d.channel (omega (arith, ap length empty)) in
      let sent' : send_all q (sends acts) d.channel ≡ some channel =
        ap (λ l. send_all q l d.channel) sent ∙ stored in
      let silent =
        subst (λ x. messages x.1.calls ≡ messages d.calls) asked
          (messages-time_for n d h.checked) in
      let (d', steps', out, gone, free, same', noted') =
        goes_through _ m h.now uptime channel good
          (hears n q is_timestamp p jiff mqtt_server d h time c s' acts channel steps idle asked e
            sent')
          unhanded (last ∙ ap (λ l. l ++ (m, h.now) ∷ []) empty) timely printed in
      (
        d',
        steps',
        out ∙ ap (◌∷◌ (content (post jiff (delivery_with m h.now uptime (ok tt))))) silent,
        gone,
        free,
        ap (λ x. x.last_publish) same' ∙ noted,
        noted',
      )
