-- ===== src/Shared/Atomic.antt =====
-- A call of `publish` or `get_time` is as if it were made at once.
use mathlib.Core.Path.{subst}
use mathlib.Core.Option.{some-injective}
use esp_rf_ook.Prelude.{
  ◌++◌, ℕ, ◌≡◌, sym, ap, ◌∙◌, Bool, true, false, if◌then◌else◌, none, some, List, Outcome, panic,
}
use esp_rf_ook.Sensor.{SensorData, PackedStruct}
use esp_rf_ook.Network.{Network, Call}
use esp_rf_ook.Network.Program.{Program, call_all}
use esp_rf_ook.Ntpc.{NtpcError}
use esp_rf_ook.Ntpc.Calls.{time_calls, call_all-time_calls}
use esp_rf_ook.Mqtt.{MqttError}
use esp_rf_ook.Mqtt.Calls.{call_all-publish_calls}
use esp_rf_ook.Publisher.{Jiff}
use esp_rf_ook.Channel.{Channel}
use esp_rf_ook.System.{Event}
use esp_rf_ook.Device
use esp_rf_ook.Device.{
  Device, client, ntp_server, started, delivery_with, is_ok, time_for, publish_message,
}
use esp_rf_ook.Publisher.{deliver, post}
use esp_rf_ook.Shared.{Mutex, IsMutex, Shared, is_due, is_silent, message_calls}

-- Where a lock was free and is taken, it is held.
pub held_by :
    {L : Type 0} (x : Mutex L) (law : IsMutex x) {l l' : L}
    → x.lock l ≡ some l'
    → law.locked l ≡ false
    → law.locked l' ≡ true
held_by x law {l} locks unlocked =
    let (_, locks', held) = law.lock_unlocked l unlocked in
    ap law.locked (some-injective _ _ (sym locks ∙ locks')) ∙ held

-- What the turn did before it took the lock.
pub delivers :
    (jiff : Jiff) (m : SensorData) (timestamp uptime last : ℕ)
    (result : Outcome MqttError (Unit {0}))
    → is_silent timestamp last ≡ false
    → jiff.is_timestamp timestamp ≡ true
    → (let d = delivery_with m timestamp uptime result in
        deliver jiff last d ≡ some (if is_ok result then timestamp else last, post jiff d))
unfolding deliver
delivers jiff m timestamp uptime last result loud timed = rw (loud, timed)

module _ {Addr World C : Type 0} (n : Network Addr World) where
  -- Once the lock is taken, all calls are to come.
  pub time_lem :
      (d : Device Addr World C) (checked : ℕ)
      → is_due checked d.station ≡ true
      → call_all n (time_calls ntp_server d.ntpc) d.world d.calls ≡ time_for n d checked
  unfolding time_for
  time_lem d checked due = call_all-time_calls n ntp_server (client d.ntpc d) ∙ rw due

  pub message_lem :
      (jiff : Jiff) (mqtt_server : List ℕ) (d : Device Addr World C) (m : SensorData)
      (timestamp uptime : ℕ)
      → call_all n (message_calls jiff mqtt_server m timestamp uptime d.mqtt) d.world d.calls
        ≡ publish_message n jiff mqtt_server d m timestamp uptime
  unfolding publish_message
  message_lem jiff mqtt_server d m timestamp uptime =
      let made = post jiff (delivery_with m timestamp uptime panic) in
      call_all-publish_calls made.topic made.text n mqtt_server (client d.mqtt d)

module _ {Addr World C L : Type 0} (n : Network Addr World) (q : Channel (SensorData × ℕ) C)
    (x : Mutex L) (law : IsMutex x) (is_timestamp : ℕ → Bool) (p : PackedStruct) (jiff : Jiff)
    (mqtt_server : List ℕ) (s : Device Addr World C) where
  -- Where the device is, but for the world and the calls of the one call that is being made.
  abbrev pub Reached : List Event → Device Addr World C → World → List (Call Addr) → Type 0
  Reached es d world calls =
      Device.Steps n q is_timestamp p jiff mqtt_server s es
        (record d { world = world; calls = calls })

  -- `get_time` is being called: the rest of it comes to what all of it does from where the device is.
  pub record Asking (es : List Event) (f : Shared Addr World C L) (checked : ℕ)
      (rest : Program Addr NtpcError ℕ) : Type 0 where
    pub no_turn : f.turn ≡ none
    pub held : law.locked f.mutex ≡ true
    pub idle : f.device.asked ≡ none
    pub world : World
    pub calls : List (Call Addr)
    pub reached : Reached es f.device world calls
    pub made : List (Call Addr)
    pub grown : f.device.calls ≡ made ++ calls
    pub same :
        call_all n rest f.device.world f.device.calls
        ≡ time_for n (record f.device { world = world; calls = calls }) checked

  -- And so for `publish`.
  pub record Publishing (es : List Event) (f : Shared Addr World C L) (m : SensorData)
      (timestamp uptime : ℕ) (rest : Program Addr MqttError (Unit {0})) : Type 0 where
    pub no_loop : f.loop ≡ none
    pub held : law.locked f.mutex ≡ true
    pub heard : is_silent timestamp f.device.last_publish ≡ false
    pub timed : jiff.is_timestamp timestamp ≡ true
    pub world : World
    pub calls : List (Call Addr)
    pub reached : Reached es f.device world calls
    pub made : List (Call Addr)
    pub grown : f.device.calls ≡ made ++ calls
    pub same :
        call_all n rest f.device.world f.device.calls
        ≡ publish_message n jiff mqtt_server
            (record f.device { world = world; calls = calls })
            m
            timestamp
            uptime

  -- One of the two at most is being called.
  pub data Atomic (es : List Event) (f : Shared Addr World C L) : Type 0 where
    free :
        f.loop ≡ none
        → f.turn ≡ none
        → law.locked f.mutex ≡ false
        → Device.Steps n q is_timestamp p jiff mqtt_server s es f.device
        → Atomic es f
    asking :
        (checked : ℕ) (rest : Program Addr NtpcError ℕ)
        → f.loop ≡ some (checked, rest)
        → Asking es f checked rest
        → Atomic es f
    publishing :
        (m : SensorData) (timestamp uptime : ℕ) (rest : Program Addr MqttError (Unit {0}))
        → f.device.in_hand ≡ some (m, timestamp)
        → f.turn ≡ some (uptime, rest)
        → Publishing es f m timestamp uptime rest
        → Atomic es f

  module _ {es : List Event} where
    pub Atomic-Asking :
        {f : Shared Addr World C L} {checked : ℕ} {rest : Program Addr NtpcError ℕ}
        → f.loop ≡ some (checked, rest)
        → Atomic es f
        → Asking es f checked rest
    Atomic-Asking e (free h _ _ _) = cc (sym h ∙ e)
    Atomic-Asking {f} e (asking checked rest h a) =
        subst (λ c. Asking es f c.0 c.1) (some-injective _ _ (sym h ∙ e)) a
    Atomic-Asking e (publishing m timestamp uptime rest _ _ a) = cc (sym a.no_loop ∙ e)

    pub Atomic-Publishing :
        {f : Shared Addr World C L} {m : SensorData} {timestamp uptime : ℕ}
        {rest : Program Addr MqttError (Unit {0})}
        → f.device.in_hand ≡ some (m, timestamp)
        → f.turn ≡ some (uptime, rest)
        → Atomic es f
        → Publishing es f m timestamp uptime rest
    Atomic-Publishing i e (free _ h _ _) = cc (sym h ∙ e)
    Atomic-Publishing i e (asking checked rest _ a) = cc (sym a.no_turn ∙ e)
    Atomic-Publishing {f} {m} {timestamp} {uptime} {rest} i e
          (publishing m' timestamp' uptime' rest' j h a) =
        subst (λ c. Publishing es f c.0 c.1 uptime rest) (some-injective _ _ (sym j ∙ i))
          (subst (λ c. Publishing es f m' timestamp' c.0 c.1) (some-injective _ _ (sym h ∙ e)) a)
