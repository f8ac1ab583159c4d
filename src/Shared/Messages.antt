-- ===== src/Shared/Messages.antt =====
-- The messages among the single calls.
use mathlib.Core.Path.{subst}
use esp_rf_ook.Prelude.{ℕ, sym, ap, ◌∙◌, Bool, Option, List, [], ◌∷◌, ◌++◌, All}
use esp_rf_ook.Sensor.{SensorData, PackedStruct}
use esp_rf_ook.Network.{Network, Call, dns_query, ask_time}
use esp_rf_ook.Network.Program.{Program, ends, queries, attempts, requests, call_all}
use esp_rf_ook.Message.RoundTrip.{HasNoQuote}
use esp_rf_ook.Publisher.{Jiff}
use esp_rf_ook.Channel.{Channel, IsChannel}
use esp_rf_ook.System.{capacity, Event}
use esp_rf_ook.Device
use esp_rf_ook.Device.{time_for, publish_message, started}
use esp_rf_ook.Device.Logged.{messages, messages-append}
use esp_rf_ook.Device.Messages.{Carries, messages-Carries, messages-time_for}
use esp_rf_ook.Shared.{Mutex, IsMutex, Shared, shared_started, Steps}
use esp_rf_ook.Shared.Atomic.{Atomic, free, asking, publishing, delivers}
use esp_rf_ook.Shared.Runs.{Steps-Atomic}

All-rest : {A : Type 0} (P : A → Type 0) (xs ys : List A) → All P (xs ++ ys) → All P ys
All-rest P [] ys h = h
All-rest P (x ∷ xs) ys (_, h) = All-rest P xs ys h

module _ {Addr : Type 0} (P : List ℕ × List ℕ → Type 0) where
  -- Calls that come later leave the messages before them.
  All-messages_before :
      (later calls : List (Call Addr)) → All P (messages (later ++ calls)) → All P (messages calls)
  All-messages_before later calls h =
      All-rest P (messages later) (messages calls) (subst (All P) (messages-append later calls) h)

module _ {Addr World E A : Type 0} (n : Network Addr World) (P : List ℕ × List ℕ → Type 0) where
  -- What holds of the messages when a program ends holds of those before it.
  pub All-messages-call_all :
      (rest : Program Addr E A) (world : World) (calls : List (Call Addr))
      → All P (messages (call_all n rest world calls).1.calls)
      → All P (messages calls)
  unfolding call_all
  All-messages-call_all (ends r addr) world calls h = h
  All-messages-call_all (queries name go) world calls h =
      All-messages_before P (dns_query name ∷ []) calls (All-messages-call_all (go _) _ _ h)
  All-messages-call_all (attempts call go) world calls h =
      All-messages_before P (call ∷ []) calls (All-messages-call_all (go _) _ _ h)
  All-messages-call_all (requests addr port go) world calls h =
      All-messages_before P (ask_time addr port ∷ []) calls (All-messages-call_all (go _) _ _ h)

module _ {Addr World C L : Type 0} (n : Network Addr World) (q : Channel (SensorData × ℕ) C)
    (laws : IsChannel capacity q) (x : Mutex L) (law : IsMutex x) (is_timestamp : ℕ → Bool)
    (p : PackedStruct) (jiff : Jiff) (mqtt_server : List ℕ)
    (last_time_sync last_publish publisher_now : ℕ) (ntpc : Option Addr) (world : World) where
  Atomic-Carries :
      ((t : ℕ) → HasNoQuote (jiff.date_time t))
      → {es : List Event} {f : Shared Addr World C L}
      → Atomic n q x law is_timestamp p jiff mqtt_server
          (started q last_time_sync last_publish publisher_now ntpc world)
          es
          f
      → All (Carries jiff es) (messages f.device.calls)
  Atomic-Carries plain (free _ _ _ reached) =
      messages-Carries n q laws is_timestamp p jiff mqtt_server last_time_sync last_publish
        publisher_now ntpc world plain reached
  Atomic-Carries plain {es} {f} (asking checked rest _ a) =
      All-messages-call_all n (Carries jiff es) rest f.device.world f.device.calls (
        subst (All (Carries jiff es))
          (sym (ap (λ c. messages c.1.calls) a.same ∙ messages-time_for n _ checked))
          (messages-Carries n q laws is_timestamp p jiff mqtt_server last_time_sync last_publish
            publisher_now ntpc world plain a.reached))
  Atomic-Carries plain {es} {f} (publishing m timestamp uptime rest i _ a) =
      All-messages-call_all n (Carries jiff es) rest f.device.world f.device.calls (
        messages-Carries n q laws is_timestamp p jiff mqtt_server last_time_sync last_publish
          publisher_now ntpc world plain
          (Device.next _ a.reached (
            Device.publishes _ m timestamp uptime _ _ _ _ i (sym a.same)
              (delivers jiff m timestamp uptime f.device.last_publish _ a.heard a.timed))))

  -- Every message that goes out, also by a call of `publish` that is not at its end, whatever the
  -- network answers and however the tasks interleave between single calls, carries the topic and the
  -- text that report the frame which one of the rounds received; if no printed time holds a quote,
  -- and the channel and the mutex keep their laws.
  pub Steps-Carries :
      ((t : ℕ) → HasNoQuote (jiff.date_time t))
      → {es : List Event} {f : Shared Addr World C L}
      → Steps n q x is_timestamp p jiff mqtt_server
          (shared_started q x last_time_sync last_publish publisher_now ntpc world)
          es
          f
      → All (Carries jiff es) (messages f.device.calls)
  Steps-Carries plain steps = Atomic-Carries plain (
      Steps-Atomic n q x law is_timestamp p jiff mqtt_server last_time_sync last_publish
        publisher_now ntpc world steps)
