-- ===== src/Device/Messages.antt =====
-- From the antenna to the network: every message that the device sends reports a frame.
use mathlib.Core.Path.{subst}
use esp_rf_ook.Prelude.{
  ℕ, ◌≡◌, refl, sym, ap, ◌∙◌, ◌⊎◌, inl, inr, Bool, false, Option, some, List, [], ◌∷◌, ◌++◌, arith,
  map, All, Outcome, panic, ltb, Bool-cases,
}
use esp_rf_ook.Prelude.Words.{sub_u64}
use esp_rf_ook.Sensor.{SensorData, PackedStruct}
use esp_rf_ook.Network.{Network}
use esp_rf_ook.Mqtt.{MqttError}
use esp_rf_ook.Station.{resync_after}
use esp_rf_ook.Message.RoundTrip.{HasNoQuote}
use esp_rf_ook.Publisher.{Jiff, Delivery, Post, post, deliver}
use esp_rf_ook.Channel.{Channel, IsChannel}
use esp_rf_ook.System.{capacity, Event, heard, delivered}
use esp_rf_ook.System.Refines.{rounds_of, deliveries_of, posts_of}
use esp_rf_ook.System.Reported.{IsReported, posts-IsReported, All-front}
use esp_rf_ook.Device.{
  ntp_server, Device, Step, asks, listens, takes, publishes, Steps, here, next, delivery_with,
  client, time_for, publish_message, started,
}
use esp_rf_ook.Device.Logged.{messages, Adds, messages-get_time, messages-publish}
use esp_rf_ook.Device.Simulates.{Steps-System}

abbrev pub content : Post → List ℕ × List ℕ
content posted = (posted.topic, posted.text)

-- The messages are those of the deliveries, in order: one for each whose publication returned `Ok`,
-- and one at most for each other. The latest is first.
abbrev pub Logged : List Event → List (List ℕ × List ℕ) → Type 0
Logged [] sent = sent ≡ []
Logged (heard r ∷ es) sent = Logged es sent
Logged (delivered d posted ∷ es) sent =
    ((before : List (List ℕ × List ℕ)) × (sent ≡ content posted ∷ before) × Logged es before)
    ⊎ (d.published ≡ false) × Logged es sent

posted-deliver :
    (jiff : Jiff) (last last' : ℕ) (d : Delivery) (posted : Post)
    → deliver jiff last d ≡ some (last', posted)
    → posted ≡ post jiff d
unfolding deliver
posted-deliver jiff last last' d posted e = ground arith

module _ {Addr World : Type 0} (n : Network Addr World) where
  pub messages-time_for :
      {C : Type 0} (d : Device Addr World C) (checked : ℕ)
      → messages (time_for n d checked).1.calls ≡ messages d.calls
  unfolding time_for
  messages-time_for d checked =
      elim (Bool-cases (ltb resync_after (sub_u64 checked d.station.last_time_sync))) [
        | inl due ↦ rw due (messages-get_time n ntp_server (client d.ntpc d))
        | inr early ↦ rw early
      ]

  pub messages-publish_message :
      {C : Type 0} (jiff : Jiff) (server : List ℕ) (d : Device Addr World C) (m : SensorData)
      (timestamp uptime : ℕ)
      → let (result, c) = publish_message n jiff server d m timestamp uptime in
        Adds
          (content (post jiff (delivery_with m timestamp uptime panic)))
          result
          (messages d.calls)
          (messages c.calls)
  unfolding publish_message
  messages-publish_message jiff server d m timestamp uptime =
      let posted = post jiff (delivery_with m timestamp uptime panic) in
      messages-publish n server (client d.mqtt d) posted.topic posted.text

  -- A text does not depend on whether it is published.
  pub post-delivery_with :
      (jiff : Jiff) (m : SensorData) (timestamp uptime : ℕ) (r r' : Outcome MqttError (Unit {0}))
      → post jiff (delivery_with m timestamp uptime r)
        ≡ post jiff (delivery_with m timestamp uptime r')
  unfolding post
  post-delivery_with jiff m timestamp uptime r r' = refl

  module _ {C : Type 0} (q : Channel (SensorData × ℕ) C) (is_timestamp : ℕ → Bool)
      (p : PackedStruct) (jiff : Jiff) (mqtt_server : List ℕ) where
    Step-Logged :
        (es : List Event) {new : List Event} {d d' : Device Addr World C}
        → Step n q is_timestamp p jiff mqtt_server d new d'
        → Logged es (messages d.calls)
        → Logged (new ++ es) (messages d'.calls)
    Step-Logged es (asks d checked time c idle answered) k =
        let silent =
          subst (λ x. messages x.1.calls ≡ messages d.calls) answered
            (messages-time_for d checked) in
        subst (Logged es) (sym silent) k
    Step-Logged es (listens d h time station actions channel answered done sent) k = k
    Step-Logged es (takes d m channel idle received) k = k
    Step-Logged es (publishes d m timestamp uptime result c last posted front sent done) k =
        let unsent = post jiff (delivery_with m timestamp uptime panic) in
        let adds =
          subst (λ x. Adds (content unsent) x.0 (messages d.calls) (messages x.1.calls)) sent
            (messages-publish_message jiff mqtt_server d m timestamp uptime) in
        let same =
          post-delivery_with jiff m timestamp uptime panic result
          ∙ sym (posted-deliver jiff d.last_publish last _ posted done) in
        elim adds [
          | inl e ↦
              inl (messages d.calls, e ∙ ap (λ posted. content posted ∷ messages d.calls) same, k)
          | inr (failed, e) ↦ inr (failed, subst (Logged es) (sym e) k)
        ]

    module _ (last_time_sync last_publish publisher_now : ℕ) (ntpc : Option Addr)
        (world : World) where
      -- The network carries what the publisher reports: for each delivery whose publication returned `Ok`
      -- one message with its topic and text, for each other delivery one or none, in the order of the
      -- deliveries, and nothing else, whatever the network answers and however the tasks interleave.
      pub Steps-Logged :
          {es : List Event} {d : Device Addr World C}
          → Steps n q is_timestamp p jiff mqtt_server
              (started q last_time_sync last_publish publisher_now ntpc world)
              es
              d
          → Logged es (messages d.calls)
      Steps-Logged here = refl
      Steps-Logged (next {es} new steps step) = Step-Logged es step (Steps-Logged steps)

-- The message is the post of a delivery that reports the symbols of one of the rounds.
abbrev pub Carries : Jiff → List Event → List ℕ × List ℕ → Type 0
Carries jiff es m = (d : Delivery) × (m ≡ content (post jiff d)) × IsReported jiff (rounds_of es) d

All-last : {A : Type 0} (P : A → Type 0) (xs : List A) (x : A) → All P (xs ++ x ∷ []) → P x
All-last P [] x (h, _) = h
All-last P (y ∷ xs) x (_, hs) = All-last P xs x hs

All-Logged :
    (Q : List ℕ × List ℕ → Type 0) (es : List Event) (sent : List (List ℕ × List ℕ))
    → All (λ posted. Q (content posted)) (posts_of es)
    → Logged es sent
    → All Q sent
All-Logged Q [] sent h k = subst (All Q) (sym k) tt
All-Logged Q (heard r ∷ es) sent h k = All-Logged Q es sent h k
All-Logged Q (delivered d posted ∷ es) sent h (inl (before, e, k)) = subst (All Q) (sym e) (
  All-last (λ x. Q (content x)) (posts_of es) posted h,
  All-Logged Q es before (All-front (λ x. Q (content x)) (posts_of es) (posted ∷ []) h) k,
)
All-Logged Q (delivered d posted ∷ es) sent h (inr (_, k)) =
    All-Logged Q es sent (All-front (λ x. Q (content x)) (posts_of es) (posted ∷ []) h) k

All-map-post :
    (jiff : Jiff) (es : List Event) (ds : List Delivery)
    → All (IsReported jiff (rounds_of es)) ds
    → All (λ posted. Carries jiff es (content posted)) (map (post jiff) ds)
All-map-post jiff es [] h = tt
All-map-post jiff es (d ∷ ds) (h, hs) = ((d, refl, h), All-map-post jiff es ds hs)

module _ {Addr World C : Type 0} (n : Network Addr World) (q : Channel (SensorData × ℕ) C)
    (law : IsChannel capacity q) (is_timestamp : ℕ → Bool) (p : PackedStruct) (jiff : Jiff)
    (mqtt_server : List ℕ) (last_time_sync last_publish publisher_now : ℕ) (ntpc : Option Addr)
    (world : World) where
  -- Every message that the device sends over the network, whatever the network answers and however
  -- the two tasks interleave, carries the topic and the text that report the frame which one of its
  -- rounds received; if no printed time holds a quote, and the channel keeps the laws of a queue.
  pub messages-Carries :
      ((t : ℕ) → HasNoQuote (jiff.date_time t))
      → {es : List Event} {d : Device Addr World C}
      → Steps n q is_timestamp p jiff mqtt_server
          (started q last_time_sync last_publish publisher_now ntpc world)
          es
          d
      → All (Carries jiff es) (messages d.calls)
  messages-Carries plain {es} {d} steps =
      let (posts, reported) =
        posts-IsReported p jiff plain q law is_timestamp last_time_sync last_publish publisher_now (
          Steps-System n q is_timestamp p jiff mqtt_server last_time_sync last_publish publisher_now
            ntpc world steps) in
      All-Logged (Carries jiff es) es (messages d.calls)
        (subst (All (λ posted. Carries jiff es (content posted))) (sym posts)
          (All-map-post jiff es (deliveries_of es) reported))
        (Steps-Logged n q is_timestamp p jiff mqtt_server last_time_sync last_publish publisher_now
          ntpc world steps)
