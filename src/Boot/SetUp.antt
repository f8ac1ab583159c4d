-- ===== src/Boot/SetUp.antt =====
-- `main` from the first time on: how the clock, the receiver and the publisher are set up.
use mathlib.Core.Path.{subst}
use esp_rf_ook.Prelude.{
  ℕ, ◌≡◌, ◌≢◌, refl, sym, ◌∙◌, inl, inr, Bool, true, false, Bool-cases, some, Option-cases, All,
  List, [], ◌∷◌, ◌++◌, Outcome, ok, err, panic,
}
use esp_rf_ook.Prelude.Words.{mul_u64}
use esp_rf_ook.Wifi.{WifiAction, connections}
use esp_rf_ook.Boot.Link.{
  Survives, BreaksDown, SomeBreaks, connections-Survives, connections-SomeBreaks,
}
use esp_rf_ook.Ntpc.{NtpcError}
use esp_rf_ook.Station.{Station, start}
use esp_rf_ook.Boot.{
  BootAction, set_current_time_us, configure_rx, spawn_mqtt_publisher, Answers, done, panicked,
  waiting, W, set_up,
}

-- A step of the start fails, or a round of the connection task beside it.
pub data Fails (is_timestamp : ℕ → Bool) (a : Answers) : Type 0 where
  no_radio : a.radio_init ≡ false → Fails is_timestamp a
  no_controller : a.wifi_controller ≡ false → Fails is_timestamp a
  breaks_connecting : BreaksDown a.connecting → Fails is_timestamp a
  breaks_addressing : SomeBreaks a.addressing → Fails is_timestamp a
  no_address : a.got_ip ≡ false → Fails is_timestamp a
  breaks_asking : SomeBreaks a.time_asking → Fails is_timestamp a
  no_time : ((t : ℕ) → a.ntp ≢ ok t) → Fails is_timestamp a
  no_timestamp : is_timestamp a.shown ≡ false → Fails is_timestamp a
  no_rmt : a.rmt ≡ false → Fails is_timestamp a
  no_channel : a.rx_channel ≡ false → Fails is_timestamp a
  no_publisher : a.publisher_spawned ≡ false → Fails is_timestamp a

module _ (is_timestamp : ℕ → Bool) (a : Answers) where
  -- How `set_up` ends.
  abbrev pub SetUp : W Station → Type 0
  SetUp (done s, acts) =
      (time : ℕ) × (a.ntp ≡ ok time)
      × (is_timestamp a.shown ≡ true)
      × (a.rmt ≡ true)
      × (a.rx_channel ≡ true)
      × (a.publisher_spawned ≡ true)
      × All Survives a.time_asking
      × (s ≡ start a.last_time_sync a.last_publish)
      × (acts
          ≡ set_current_time_us (mul_u64 time 1000000)
            ∷ configure_rx 80 3000 100
            ∷ spawn_mqtt_publisher a.publisher_now
            ∷ [])
  SetUp (panicked, acts) = Fails is_timestamp a
  SetUp (waiting, acts) = ⊥

  pub fails_at :
      {A : Type 0} (acts : List BootAction) (Q : W A → Type 0) (w : W A)
      → w ≡ (panicked, acts)
      → Q (panicked, acts)
      → Q w
  fails_at acts Q w e q = subst Q (sym e) q

  abbrev timed : ℕ → List BootAction
  timed time = set_current_time_us (mul_u64 time 1000000) ∷ []

  abbrev receiving : ℕ → List BootAction
  receiving time = timed time ++ (configure_rx 80 3000 100 ∷ [])

  module _ (wifi : List WifiAction) (kept : connections a.time_asking ≡ some wifi) where
    -- Behind the time, the tests one after the other.
    set_up_timed : (time : ℕ) → a.ntp ≡ ok time → SetUp (set_up is_timestamp a)
    unfolding set_up
    set_up_timed time e = elim (Bool-cases (is_timestamp a.shown)) [
      | inr f ↦ fails_at (timed time) SetUp _ (rw (kept, e, f)) (no_timestamp f)
      | inl shown ↦ elim (Bool-cases a.rmt) [
        | inr f ↦ fails_at (timed time) SetUp _ (rw (kept, e, shown, f)) (no_rmt f)
        | inl rmt ↦ elim (Bool-cases a.rx_channel) [
          | inr f ↦ fails_at (receiving time) SetUp _ (rw (kept, e, shown, rmt, f)) (no_channel f)
          | inl rx ↦ elim (Bool-cases a.publisher_spawned) [
            | inr f ↦
                fails_at (receiving time) SetUp _ (rw (kept, e, shown, rmt, rx, f)) (no_publisher f)
            | inl spawned ↦
                let e' : set_up is_timestamp a ≡ (
                  done (start a.last_time_sync a.last_publish),
                  set_current_time_us (mul_u64 time 1000000)
                      ∷ configure_rx 80 3000 100
                      ∷ spawn_mqtt_publisher a.publisher_now
                      ∷ [],
                ) =
                  rw (kept, e, shown, rmt, rx, spawned) in
                let survived = connections-Survives a.time_asking wifi kept in
                subst SetUp (sym e') (time, e, shown, rmt, rx, spawned, survived, refl, refl)
          ]
        ]
      ]
    ]

    untimed : (o : Outcome NtpcError ℕ) → a.ntp ≡ o → SetUp (set_up is_timestamp a)
    unfolding set_up
    untimed (ok time) e = set_up_timed time e
    untimed (err x) e = fails_at [] SetUp _ (rw (kept, e)) (no_time (λ t e'. cc (sym e ∙ e')))
    untimed panic e = fails_at [] SetUp _ (rw (kept, e)) (no_time (λ t e'. cc (sym e ∙ e')))

  pub set_up_ends : SetUp (set_up is_timestamp a)
  unfolding set_up
  set_up_ends = elim (Option-cases (connections a.time_asking)) [
    | inl broken ↦
        fails_at [] SetUp _ (rw broken)
          (breaks_asking (connections-SomeBreaks a.time_asking broken))
    | inr (wifi, kept) ↦ untimed wifi kept a.ntp refl
  ]
