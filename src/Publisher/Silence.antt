-- ===== src/Publisher/Silence.antt =====
-- The publisher's watch over its own success.
use esp_rf_ook.Prelude.{
  ◌↔◌, ◌⊎◌, ℕ, ◌+◌, ◌^◌, ◌<◌, ◌≡◌, ◌≢◌, refl, inl, inr, true, false, Bool-cases, All, ◌++◌, map,
  none, some, List, [], ◌∷◌, arith, if◌then◌else◌,
}
use esp_rf_ook.Prelude.Words.{sub_u64, gt_i64}
use esp_rf_ook.Publisher.{silence_limit, Jiff, Delivery, post, deliver, deliver_all}

-- The time of the last success behind a delivery.
abbrev pub last_success : ℕ → Delivery → ℕ
last_success last d = if d.published then d.timestamp else last

-- Each message comes at most 300 seconds after the last success before it, and has a timestamp.
abbrev pub Timely : Jiff → ℕ → List Delivery → Type 0
Timely jiff last [] = Unit
Timely jiff last (d ∷ ds) =
    (gt_i64 (sub_u64 d.timestamp last) silence_limit ≡ false)
    × (jiff.is_timestamp d.timestamp ≡ true)
    × Timely jiff (last_success last d) ds

-- The time of the last success behind a sequence of deliveries.
abbrev pub last_of : ℕ → List Delivery → ℕ
last_of last [] = last
last_of last (d ∷ ds) = last_of (last_success last d) ds

module _ (jiff : Jiff) where
  deliver_timely :
      (last : ℕ) (d : Delivery)
      → gt_i64 (sub_u64 d.timestamp last) silence_limit ≡ false
      → jiff.is_timestamp d.timestamp ≡ true
      → deliver jiff last d ≡ some (last_success last d, post jiff d)
  unfolding deliver
  deliver_timely last d h k = rw (h, k)

  deliver_late :
      (last : ℕ) (d : Delivery)
      → gt_i64 (sub_u64 d.timestamp last) silence_limit ≡ true
      → deliver jiff last d ≡ none
  unfolding deliver
  deliver_late last d h = rw h

  deliver_no_timestamp :
      (last : ℕ) (d : Delivery) → jiff.is_timestamp d.timestamp ≡ false → deliver jiff last d ≡ none
  unfolding deliver
  deliver_no_timestamp last d h = ground (arith, h)

  -- On times of the i64 that are not negative, a turn of the loop panics exactly where the message is
  -- more than 300 seconds younger than the last success, or jiff takes its time for no timestamp; a
  -- message that is older never does.
  pub deliver_panics :
      (last : ℕ) (d : Delivery)
      → last < 2 ^ 63
      → d.timestamp < 2 ^ 63
      → (deliver jiff last d ≡ none)
        ↔ ((last + silence_limit < d.timestamp) ⊎ (jiff.is_timestamp d.timestamp ≡ false))
  unfolding deliver
  deliver_panics last d h k = ground arith

  survives-Timely :
      (last : ℕ) (ds : List Delivery) → deliver_all jiff last ds ≢ none → Timely jiff last ds
  unfolding deliver_all
  survives-Timely last [] h = tt
  survives-Timely last (d ∷ ds) h =
      elim (Bool-cases (gt_i64 (sub_u64 d.timestamp last) silence_limit)) [
        | inl late ↦ absurd (h (rw (deliver_late last d late)))
        | inr soon ↦ elim (Bool-cases (jiff.is_timestamp d.timestamp)) [
          | inr bad ↦ absurd (h (rw (deliver_no_timestamp last d bad)))
          | inl good ↦ (
            soon,
            good,
            survives-Timely (last_success last d) ds
                (λ e. h (rw (deliver_timely last d soon good, e))),
          )
        ]
      ]

  Timely-survives :
      (last : ℕ) (ds : List Delivery)
      → Timely jiff last ds
      → deliver_all jiff last ds ≡ some (last_of last ds, map (post jiff) ds)
  unfolding deliver_all
  Timely-survives last [] h = refl
  Timely-survives last (d ∷ ds) (soon, good, h) =
      rw (deliver_timely last d soon good, Timely-survives (last_success last d) ds h)

  -- The task survives a sequence of messages exactly if each comes at most 300 seconds (as a signed
  -- 64-bit difference) after the last success before it, and is a timestamp. Then each message is
  -- posted once, in order, and the time of the last success is kept.
  pub deliver_all_survives :
      (last : ℕ) (ds : List Delivery)
      → (deliver_all jiff last ds ≢ none → Timely jiff last ds)
        × (Timely jiff last ds
            → deliver_all jiff last ds ≡ some (last_of last ds, map (post jiff) ds))
  deliver_all_survives last ds = (survives-Timely last ds, Timely-survives last ds)

  -- A pause of the sensor is taken for a failure: where all messages before were published, the next
  -- one that comes more than 300 seconds after the last of them makes the task panic.
  pub silence_panics :
      (last : ℕ) (before : List Delivery) (d : Delivery)
      → Timely jiff last before
      → All (λ b. b.published ≡ true) before
      → last_of last before + silence_limit < d.timestamp
      → d.timestamp < 2 ^ 63
      → deliver_all jiff last (before ++ d ∷ []) ≡ none
  unfolding deliver_all
  silence_panics last [] d _ _ late small = rw (deliver_late last d (ground arith))
  silence_panics last (b ∷ before) d (soon, good, h) (_, fine) late small = rw (
    deliver_timely last b soon good,
    silence_panics (last_success last b) before d h fine late small,
  )
