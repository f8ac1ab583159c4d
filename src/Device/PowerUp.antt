-- ===== src/Device/PowerUp.antt =====
-- The device from the start of `main` on: what its time client keeps, and what is looked up.
use mathlib.Core.Path.{subst}
use esp_rf_ook.Prelude.{
  ℕ, ◌≡◌, refl, sym, ap, inl, inr, Bool, true, Bool-cases, some, List, [], ◌∷◌, ◌++◌, arith, All,
  Outcome, ok, err, panic, ltb,
}
use esp_rf_ook.Prelude.Words.{sub_u64}
use esp_rf_ook.Sensor.{PackedStruct}
use esp_rf_ook.Network.{Network, Call, dns_query, Client, resolve}
use esp_rf_ook.Network.Resolve.{asked}
use esp_rf_ook.Ntpc
use esp_rf_ook.Ntpc.{NtpcError, get_time}
use esp_rf_ook.Ntpc.Outcomes.{Exchanged, closed_calls, exchange_ends, get_time-Ends}
use esp_rf_ook.Station.{Station, resync_after, start}
use esp_rf_ook.Boot.{BootAction, Answers, done, panicked, waiting, W, boot}
use esp_rf_ook.Boot.Start.{Ends, boot-Ends}
use esp_rf_ook.Publisher.{Jiff}
use esp_rf_ook.Channel.{Channel}
use esp_rf_ook.Sensor.{SensorData}
use esp_rf_ook.System.{Event}
use esp_rf_ook.Device.LookUps.{look_ups, Only, publish_message-Only}
use esp_rf_ook.Device.{
  ntp_server, Device, Step, asks, listens, takes, publishes, Steps, here, next, client, time_for,
  started,
}

module _ {Addr World : Type 0} (n : Network Addr World) where
  -- With an address, nothing is looked up.
  get_time_cached :
      (server : List ℕ) (c : Client Addr World) (a : Addr)
      → c.addr ≡ some a
      → get_time n server c ≡ Ntpc.exchange n a c
  unfolding get_time resolve
  get_time_cached server c a h = ground arith

  -- The address stays, and no name is looked up.
  abbrev Keeps : Addr → List (Call Addr) → Client Addr World → Type 0
  Keeps a calls c = (c.addr ≡ some a) × (look_ups c.calls ≡ look_ups calls)

  exchange-Keeps :
      (a : Addr) (calls : List (Call Addr)) (o : Outcome NtpcError ℕ) (c' : Client Addr World)
      (time : ℕ)
      → o ≡ ok time
      → Exchanged a calls o c'.calls c'.addr
      → Keeps a calls c'
  exchange-Keeps a calls (ok t) c' time e (made, kept) = (kept, ap look_ups made)
  exchange-Keeps a calls (err x) c' time e h = cc
  exchange-Keeps a calls panic c' time e h = cc

  time_for_due :
      {C : Type 0} (d : Device Addr World C) (checked : ℕ) (a : Addr)
      → d.ntpc ≡ some a
      → ltb resync_after (sub_u64 checked d.station.last_time_sync) ≡ true
      → time_for n d checked ≡ Ntpc.exchange n a (client d.ntpc d)
  unfolding time_for
  time_for_due d checked a h due = rw due (get_time_cached ntp_server (client d.ntpc d) a h)

  time_for-Keeps :
      {C : Type 0} (d : Device Addr World C) (checked : ℕ) (a : Addr) (time : ℕ)
      → d.ntpc ≡ some a
      → (time_for n d checked).0 ≡ ok time
      → Keeps a d.calls (time_for n d checked).1
  unfolding time_for
  time_for-Keeps d checked a time h answer =
      elim (Bool-cases (ltb resync_after (sub_u64 checked d.station.last_time_sync))) [
        | inl due ↦
            subst (λ x. x.0 ≡ ok time → Keeps a d.calls x.1) (sym (time_for_due d checked a h due))
              (λ good.
                exchange-Keeps a d.calls _ (Ntpc.exchange n a (client d.ntpc d)).1 time good
                  (exchange_ends n a (client d.ntpc d) h))
              answer
        | inr early ↦ rw early (h, refl)
      ]

  module _ {C : Type 0} (q : Channel (SensorData × ℕ) C) (is_timestamp : ℕ → Bool)
      (p : PackedStruct) (jiff : Jiff) (mqtt_server : List ℕ) where
    -- The time client keeps its address, and the broker is all that is looked up.
    abbrev pub IsSettled : Addr → Device Addr World C → Type 0
    IsSettled a d = (d.ntpc ≡ some a) × Only mqtt_server d.calls

    Step-IsSettled :
        (a : Addr) {d d' : Device Addr World C} {new : List Event}
        → Step n q is_timestamp p jiff mqtt_server d new d'
        → IsSettled a d
        → IsSettled a d'
    Step-IsSettled a (asks d checked time c idle answered) (cached, only) =
        let (kept, silent) =
          subst (λ x. Keeps a d.calls x.1) answered
            (time_for-Keeps d checked a time cached (ap (λ x. x.0) answered)) in
        (kept, subst (All (λ name. name ≡ mqtt_server)) (sym silent) only)
    Step-IsSettled a (listens d h time station actions channel answered round_done sent) settled =
        settled
    Step-IsSettled a (takes d m channel idle received) settled = settled
    Step-IsSettled a (publishes d m timestamp uptime result c last posted front sent delivery_done)
          (cached, only) =
        (
          cached,
          subst (λ x. Only mqtt_server x.1.calls) sent
              (publish_message-Only n jiff mqtt_server d m timestamp uptime only),
        )

    Steps-IsSettled :
        (a : Addr) {s d : Device Addr World C} {es : List Event}
        → IsSettled a s
        → Steps n q is_timestamp p jiff mqtt_server s es d
        → IsSettled a d
    Steps-IsSettled a k here = k
    Steps-IsSettled a k (next new steps step) = Step-IsSettled a step (Steps-IsSettled a k steps)

  first_time :
      (server : List ℕ) (c : Client Addr World) (o : Outcome NtpcError ℕ) (c' : Client Addr World)
      (time : ℕ)
      → o ≡ ok time
      → Ntpc.Outcomes.Ends n c server o c'
      → (a : Addr) × (c'.calls ≡ closed_calls a (asked c.addr server ++ c.calls))
        × (c'.addr ≡ some a)
  first_time server c (ok t) c' time e (a, (made, kept)) = (a, made, kept)
  first_time server c (err x) c' time e h = cc
  first_time server c panic c' time e h = cc

ended :
    (is_timestamp : ℕ → Bool) (a : Answers) (w : W Station) (s : Station)
    → Ends is_timestamp a w
    → w.0 ≡ done s
    → ((time : ℕ) × (a.ntp ≡ ok time)) × (s ≡ start a.last_time_sync a.last_publish)
ended is_timestamp a (done t, acts) s (time, (_, _, _, good, _, _, _, _), _, _, _, same, _) e =
    ((time, good), cc (same, e))
ended is_timestamp a (panicked, acts) s h e = cc
ended is_timestamp a (waiting, acts) s h e = cc

module _ {Addr World C : Type 0} (n : Network Addr World) (q : Channel (SensorData × ℕ) C)
    (is_timestamp : ℕ → Bool) (p : PackedStruct) (jiff : Jiff) (mqtt_server : List ℕ)
    (world : World) where
  -- From power-up on: if the start of `main`, with a new time client that asks the network, reaches
  -- its loop, then the client has looked up the time server once, asked it once and closed the socket,
  -- and the loop starts as the device does. However long the device then runs, the time client keeps
  -- the address that it found, and no name but the broker's is looked up.
  pub powered_up :
      (a : Answers) {s : Station} {acts : List BootAction} {es : List Event}
      {d : Device Addr World C}
      → let (ntp, c) = get_time n ntp_server (Ntpc.new world) in
        boot is_timestamp (record a { ntp = ntp }) ≡ (done s, acts)
        → Steps n q is_timestamp p jiff mqtt_server
            (started q a.last_time_sync a.last_publish a.publisher_now c.addr c.world)
            es
            d
        → (s ≡ (started q a.last_time_sync a.last_publish a.publisher_now c.addr c.world).station)
          × ((addr : Addr) × (c.calls ≡ closed_calls addr (dns_query ntp_server ∷ []))
              × (d.ntpc ≡ some addr)
              × Only mqtt_server d.calls)
  unfolding Ntpc.new
  powered_up a {s} booted steps =
      let first = get_time n ntp_server (Ntpc.new world) in
      let answers = record a { ntp = first.0 } in
      let ((time, good), same) =
        ended is_timestamp answers (boot is_timestamp answers) s (boot-Ends is_timestamp answers)
          (ap (λ w. w.0) booted) in
      let (addr, made, cached) =
        first_time n ntp_server (Ntpc.new world) first.0 first.1 time good
          (get_time-Ends n ntp_server (Ntpc.new world)) in
      let (kept, only) =
        Steps-IsSettled n q is_timestamp p jiff mqtt_server addr (cached, tt) steps in
      (same, (addr, made, kept, only))
