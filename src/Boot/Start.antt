-- ===== src/Boot/Start.antt =====
-- Every way that the start can end.
use mathlib.Core.Path.{subst}
use esp_rf_ook.Prelude.{
  ℕ, ◌≡◌, refl, sym, ap, inl, inr, Bool, true, Bool-cases, Option-cases, All, List, [], ◌∷◌, ◌++◌,
  ok,
}
use esp_rf_ook.Prelude.Words.{mul_u64}
use esp_rf_ook.Wifi.{connections}
use esp_rf_ook.Boot.Link.{
  Survives, StaysDown, Connects, Linked, wait_connected-Linked, connections-Survives,
  connections-SomeBreaks,
}
use esp_rf_ook.Station.{Station, start}
use esp_rf_ook.Boot.{
  BootAction, set_timeout, enable, feed, spawn_connection, spawn_net_task, set_current_time_us,
  configure_rx, spawn_mqtt_publisher, Answers, Booting, done, panicked, waiting, W, with_before,
  wait_connected, new, set_up, boot,
}
use esp_rf_ook.Boot.SetUp.{
  Fails, no_radio, no_controller, breaks_connecting, breaks_addressing, no_address, SetUp, fails_at,
  set_up_ends,
}

-- The watchdog is set to thirty seconds, started and fed.
abbrev pub armed : List BootAction
armed = set_timeout 30000 ∷ enable ∷ feed ∷ []

-- All that a complete start does, if the time server says `time`.
abbrev pub full_start : Answers → ℕ → List BootAction
full_start a time =
    armed
    ++ (spawn_connection
        ∷ spawn_net_task
        ∷ feed
        ∷ feed
        ∷ feed
        ∷ set_current_time_us (mul_u64 time 1000000)
        ∷ configure_rx 80 3000 100
        ∷ spawn_mqtt_publisher a.publisher_now
        ∷ [])

abbrev pub Succeeds : (ℕ → Bool) → Answers → ℕ → Type 0
Succeeds is_timestamp a time =
    (a.radio_init ≡ true)
    × (a.wifi_controller ≡ true)
    × (a.got_ip ≡ true)
    × (a.ntp ≡ ok time)
    × (is_timestamp a.shown ≡ true)
    × (a.rmt ≡ true)
    × (a.rx_channel ≡ true)
    × (a.publisher_spawned ≡ true)

abbrev pub Ends : (ℕ → Bool) → Answers → W Station → Type 0
Ends is_timestamp a (done s, acts) =
    (time : ℕ) × Succeeds is_timestamp a time
    × Connects a.connecting
    × All Survives a.addressing
    × All Survives a.time_asking
    × (s ≡ start a.last_time_sync a.last_publish)
    × (acts ≡ full_start a time)
Ends is_timestamp a (panicked, acts) =
    Fails is_timestamp a × ((more : List BootAction) × (acts ≡ armed ++ more))
Ends is_timestamp a (waiting, acts) =
    (a.radio_init ≡ true)
    × (a.wifi_controller ≡ true)
    × All StaysDown a.connecting
    × (acts ≡ armed ++ (spawn_connection ∷ []))

module _ (is_timestamp : ℕ → Bool) (a : Answers) where
  abbrev linked : List BootAction
  linked = armed ++ (spawn_connection ∷ spawn_net_task ∷ feed ∷ feed ∷ [])

  -- The calls before `set_up`, if none fails.
  abbrev before_set_up : List BootAction
  before_set_up = linked ++ (feed ∷ [])

  whole :
      a.radio_init ≡ true
      → a.wifi_controller ≡ true
      → Connects a.connecting
      → All Survives a.addressing
      → a.got_ip ≡ true
      → (w : W Station) → SetUp is_timestamp a w
      → Ends is_timestamp a (with_before before_set_up w)
  whole r c l b g (done s, acts) (time, e, shown, rmt, rx, spawned, survived, same, made) = (
    time,
    (r, c, g, e, shown, rmt, rx, spawned),
    l,
    b,
    survived,
    same,
    ap (λ x. before_set_up ++ x) made,
  )
  whole r c l b g (panicked, acts) f = (f, (_, refl))
  whole r c l b g (waiting, acts) f = absurd f

  -- With the radio and its controller there: by the wait for the link.
  module _ (r : a.radio_init ≡ true) (c : a.wifi_controller ≡ true) where
    addressed :
        wait_connected a.connecting ≡ done tt
        → Connects a.connecting
        → Ends is_timestamp a (boot is_timestamp a)
    unfolding boot new
    addressed w l = elim (Option-cases (connections a.addressing)) [
      | inl broken ↦ fails_at is_timestamp a linked (Ends is_timestamp a) _ (rw (r, c, w, broken)) (
        breaks_addressing (connections-SomeBreaks a.addressing broken),
        (spawn_connection ∷ spawn_net_task ∷ feed ∷ feed ∷ [], refl),
      )
      | inr (wifi, kept) ↦ elim (Bool-cases a.got_ip) [
        | inr f ↦
            fails_at is_timestamp a linked (Ends is_timestamp a) _ (rw (r, c, w, kept, f))
              (no_address f, (spawn_connection ∷ spawn_net_task ∷ feed ∷ feed ∷ [], refl))
        | inl g ↦
            let e : boot is_timestamp a ≡ with_before before_set_up (set_up is_timestamp a) =
              rw (r, c, w, kept, g) in
            subst (Ends is_timestamp a) (sym e) (
              whole r c l (connections-Survives a.addressing wifi kept) g (set_up is_timestamp a)
                (set_up_ends is_timestamp a))
      ]
    ]

    by_link :
        (w : Booting (Unit {0}))
        → wait_connected a.connecting ≡ w
        → Linked a.connecting w
        → Ends is_timestamp a (boot is_timestamp a)
    unfolding boot new
    by_link (done u) e l = addressed e l
    by_link panicked e l =
        fails_at is_timestamp a (armed ++ (spawn_connection ∷ [])) (Ends is_timestamp a) _
          (rw (r, c, e)) (breaks_connecting l, (spawn_connection ∷ [], refl))
    by_link waiting e l =
        let e' : boot is_timestamp a ≡ (waiting, armed ++ (spawn_connection ∷ [])) = rw (r, c, e) in
        subst (Ends is_timestamp a) (sym e') (r, c, l, refl)

-- Every way that the start can end. The watchdog runs, with thirty seconds, before anything can fail
-- or wait. The loop is reached only if every answer is good: a round of the connection task connects,
-- after rounds that do not, and no round has to set the controller up and fails to, until the time is
-- there. Then the two tasks of the network, the clock, the receiver and the publisher are set up once,
-- in this order. It panics only where an answer fails, or where the connection task panics while the
-- start waits for the link, the address or the time; and it waits for good only where every round of
-- that task comes to its end without a connection.
pub boot-Ends : (is_timestamp : ℕ → Bool) (a : Answers) → Ends is_timestamp a (boot is_timestamp a)
unfolding boot new
boot-Ends is_timestamp a = elim (Bool-cases a.radio_init) [
  | inr f ↦ fails_at is_timestamp a armed (Ends is_timestamp a) _ (rw f) (no_radio f, ([], refl))
  | inl r ↦ elim (Bool-cases a.wifi_controller) [
    | inr f ↦
        fails_at is_timestamp a armed (Ends is_timestamp a) _ (rw (r, f))
          (no_controller f, ([], refl))
    | inl c ↦ by_link is_timestamp a r c _ refl (wait_connected-Linked a.connecting)
  ]
]
