-- ===== src/Shared/Runs.antt =====
-- Every step of a single call keeps what `Atomic` says.
use esp_rf_ook.Prelude.{
  ap, ◌∷◌, ℕ, ◌≡◌, refl, sym, ◌∙◌, Bool, false, Option, none, some, List, [], ◌++◌,
}
use esp_rf_ook.Sensor.{SensorData, PackedStruct}
use esp_rf_ook.Network.{Network}
use esp_rf_ook.Network.Program.{Program, call_all, call_all-call_next, call_next-calls}
use esp_rf_ook.Ntpc.{NtpcError}
use esp_rf_ook.Publisher.{Jiff}
use esp_rf_ook.Channel.{Channel}
use esp_rf_ook.System.{Event}
use esp_rf_ook.Device
use esp_rf_ook.Device.{
  Device, client, ntp_server, started, delivery_with, is_ok, time_for, publish_message,
}
use esp_rf_ook.Shared.Atomic.{
  Asking, Atomic, free, asking, publishing, Atomic-Asking, held_by, time_lem, message_lem,
}
use esp_rf_ook.Shared.Turn.{Publishing-Step}
use esp_rf_ook.Shared.{
  Mutex, IsMutex, Shared, shared_started, Step, skips, locks_time, calls_time, ends_time, listens,
  takes, locks_message, calls_message, ends_message, Steps, here, next,
}

module _ {Addr World C L : Type 0} (n : Network Addr World) (q : Channel (SensorData × ℕ) C)
    (x : Mutex L) (law : IsMutex x) (is_timestamp : ℕ → Bool) (p : PackedStruct) (jiff : Jiff)
    (mqtt_server : List ℕ) (s : Device Addr World C) where
  module _ {es : List Event} where
    free_Step :
        {f f' : Shared Addr World C L} {new : List Event}
        → Step n q x is_timestamp p jiff mqtt_server f new f'
        → f.loop ≡ none
        → f.turn ≡ none
        → law.locked f.mutex ≡ false
        → Device.Steps n q is_timestamp p jiff mqtt_server s es f.device
        → Atomic n q x law is_timestamp p jiff mqtt_server s (new ++ es) f'
    unfolding time_for publish_message
    free_Step (skips f checked off idle early) no_loop no_turn unlocked reached =
        free no_loop no_turn unlocked
          (Device.next [] reached (Device.asks f.device checked 0 _ idle (rw early)))
    free_Step (locks_time f checked l off idle due locks) no_loop no_turn unlocked reached =
        asking checked _ refl (record {
          no_turn = no_turn;
          held = held_by x law locks unlocked;
          idle = idle;
          world = f.device.world;
          calls = f.device.calls;
          reached = reached;
          made = [];
          grown = refl;
          same = time_lem n f.device checked due;
        })
    free_Step (listens f h time station actions channel heard done sent) no_loop no_turn unlocked
          reached =
        free no_loop no_turn unlocked (
          Device.next _ reached
            (Device.listens f.device h time station actions channel heard done sent))
    free_Step (takes f m channel idle received) no_loop no_turn unlocked reached =
        free no_loop no_turn unlocked
          (Device.next _ reached (Device.takes f.device m channel idle received))
    free_Step (locks_message f m timestamp uptime l off i loud timed locks) no_loop no_turn unlocked
          reached =
        publishing m timestamp uptime _ i refl (record {
          no_loop = no_loop;
          held = held_by x law locks unlocked;
          heard = loud;
          timed = timed;
          world = f.device.world;
          calls = f.device.calls;
          reached = reached;
          made = [];
          grown = refl;
          same = message_lem n jiff mqtt_server f.device m timestamp uptime;
        })
    free_Step (calls_time f checked rest _ world calls h called) no_loop no_turn unlocked reached =
        cc (sym no_loop ∙ h)
    free_Step (ends_time f checked time addr h) no_loop no_turn unlocked reached =
        cc (sym no_loop ∙ h)
    free_Step (calls_message f uptime rest _ world calls h called) no_loop no_turn unlocked
          reached =
        cc (sym no_turn ∙ h)
    free_Step (ends_message f m timestamp uptime result addr i h) no_loop no_turn unlocked reached =
        cc (sym no_turn ∙ h)

    Asking-Step :
        {f f' : Shared Addr World C L} {new : List Event}
        → Step n q x is_timestamp p jiff mqtt_server f new f'
        → (checked : ℕ) (rest : Program Addr NtpcError ℕ) → f.loop ≡ some (checked, rest)
        → Asking n q x law is_timestamp p jiff mqtt_server s es f checked rest
        → Atomic n q x law is_timestamp p jiff mqtt_server s (new ++ es) f'
    unfolding time_for call_all
    Asking-Step (skips f checked off idle early) c rest h a = cc (sym off ∙ h)
    Asking-Step (locks_time f checked l off idle due locks) c rest h a = cc (sym off ∙ h)
    Asking-Step (calls_time f checked rest later world calls h called) c rest' h' a' =
        let a =
          Atomic-Asking n q x law is_timestamp p jiff mqtt_server s h (asking c rest' h' a') in
        let (call, noted) = call_next-calls n rest f.device.world f.device.calls called in
        asking checked later refl (record {
          no_turn = a.no_turn;
          held = a.held;
          idle = a.idle;
          world = a.world;
          calls = a.calls;
          reached = a.reached;
          made = call ∷ a.made;
          grown = noted ∙ ap (◌∷◌ call) a.grown;
          same = call_all-call_next n rest f.device.world f.device.calls called ∙ a.same;
        })
    Asking-Step (ends_time f checked time addr h) c rest' h' a' =
        let a =
          Atomic-Asking n q x law is_timestamp p jiff mqtt_server s h (asking c rest' h' a') in
        free refl a.no_turn (law.locked-unlock f.mutex)
          (Device.next [] a.reached (Device.asks _ checked time _ a.idle (sym a.same)))
    Asking-Step (listens f h time station actions channel heard done sent) c rest e a =
        cc (sym a.idle ∙ heard)
    Asking-Step (takes f m channel idle received) c rest e a = asking c rest e (record {
      no_turn = a.no_turn;
      held = a.held;
      idle = a.idle;
      world = a.world;
      calls = a.calls;
      reached = Device.next [] a.reached (Device.takes _ m channel idle received);
      made = a.made;
      grown = a.grown;
      same = a.same;
    })
    Asking-Step (locks_message f m timestamp uptime l off i loud timed locks) c rest h a =
        cc (sym (law.lock_locked f.mutex a.held) ∙ locks)
    Asking-Step (calls_message f uptime rest later world calls h called) _ _ _ a =
        cc (sym a.no_turn ∙ h)
    Asking-Step (ends_message f m timestamp uptime result addr i h) _ _ _ a = cc (sym a.no_turn ∙ h)

    pub Step-Atomic :
        {f f' : Shared Addr World C L} {new : List Event}
        → Step n q x is_timestamp p jiff mqtt_server f new f'
        → Atomic n q x law is_timestamp p jiff mqtt_server s es f
        → Atomic n q x law is_timestamp p jiff mqtt_server s (new ++ es) f'
    Step-Atomic step (free no_loop no_turn unlocked reached) =
        free_Step step no_loop no_turn unlocked reached
    Step-Atomic step (asking checked rest h a) = Asking-Step step checked rest h a
    Step-Atomic step (publishing m timestamp uptime rest i h a) =
        Publishing-Step n q x law is_timestamp p jiff mqtt_server s step m timestamp uptime rest i h
          a

  Steps-Atomic_from :
      {t : Shared Addr World C L} {es : List Event} {f : Shared Addr World C L}
      → Atomic n q x law is_timestamp p jiff mqtt_server s [] t
      → Steps n q x is_timestamp p jiff mqtt_server t es f
      → Atomic n q x law is_timestamp p jiff mqtt_server s es f
  Steps-Atomic_from start here = start
  Steps-Atomic_from start (next new steps step) = Step-Atomic step (Steps-Atomic_from start steps)

module _ {Addr World C L : Type 0} (n : Network Addr World) (q : Channel (SensorData × ℕ) C)
    (x : Mutex L) (law : IsMutex x) (is_timestamp : ℕ → Bool) (p : PackedStruct) (jiff : Jiff)
    (mqtt_server : List ℕ) where
  -- Whatever the interleaving of the single calls of both tasks, one call of `get_time` or `publish`
  -- at most is being made. Where the mutex is unlocked none is, and the device is where its steps, in
  -- which such a call is made at once, take it with the same events. While one is being made, the
  -- device is there but for the world and the calls that this one has made so far, and the rest of it
  -- comes to what all of it does from there. The mutex is to keep its laws.
  pub Steps-Atomic :
      (last_time_sync last_publish publisher_now : ℕ) (ntpc : Option Addr) (world : World)
      {es : List Event} {f : Shared Addr World C L}
      → Steps n q x is_timestamp p jiff mqtt_server
          (shared_started q x last_time_sync last_publish publisher_now ntpc world)
          es
          f
      → Atomic n q x law is_timestamp p jiff mqtt_server
          (started q last_time_sync last_publish publisher_now ntpc world)
          es
          f
  Steps-Atomic last_time_sync last_publish publisher_now ntpc world =
      Steps-Atomic_from n q x law is_timestamp p jiff mqtt_server _
        (free refl refl law.locked-unlocked Device.here)
