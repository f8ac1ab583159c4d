-- ===== src/Station/Panics.antt =====
-- When a round of the loop panics.
use mathlib.Core.Option.{some-ne-none}
use mathlib.Core.Path.{subst}
use esp_rf_ook.Prelude.{
  List, ℕ, ◌<◌, ◌≡◌, ◌≢◌, refl, ◌↔◌, Bool, false, Option, none, some, arith, length, Outcome, ok,
  err, panic, true, ◌++◌, All, ◌∷◌, [], ◌∙◌, sym, Option-cases, inl, inr,
}
use esp_rf_ook.Prelude.Options.{◌>>=◌}
use esp_rf_ook.Prelude.Words.{sub_u64}
use esp_rf_ook.Ntpc.{NtpcError}
use esp_rf_ook.Sensor.{SensorData, PackedStruct}
use esp_rf_ook.Decoder.{DecodeError, decode}
use esp_rf_ook.Decoder.Correct.{decode_no_panic}
use esp_rf_ook.Station.{
  Action, run, Station, Received, symbols, receive_error, timer, Round, resync_after, on_decoded,
  on_received, sync_time, resync, round,
}

-- The buffer of `main` holds 64 pulse codes.
abbrev pub HasBuffer : Received → Type 0
HasBuffer (symbols buffer n) = length buffer ≡ 64
HasBuffer receive_error = Unit
HasBuffer timer = Unit

-- The time that was asked for did not come, or is no timestamp for jiff.
abbrev pub LacksTime : (ℕ → Bool) → ℕ → Outcome NtpcError ℕ → Type 0
LacksTime is_timestamp shown (ok time) = is_timestamp shown ≡ false
LacksTime is_timestamp shown (err e) = Unit
LacksTime is_timestamp shown panic = Unit

module _ (p : PackedStruct) where
  on_decoded_total :
      (s : Station) (now : ℕ) (o : Outcome DecodeError SensorData)
      → o ≢ panic
      → on_decoded s now o ≢ none
  unfolding on_decoded
  on_decoded_total s now (ok m) h e = cc
  on_decoded_total s now (err x) h e = cc
  on_decoded_total s now panic h e = absurd (h refl)

  on_received_total :
      (s : Station) (now : ℕ) (rc : Received) → HasBuffer rc → on_received p s now rc ≢ none
  unfolding on_received
  on_received_total s now (symbols buffer n) h e =
      on_decoded_total s now (decode p buffer 1 n) (decode_no_panic p buffer 1 n (omega arith)) e
  on_received_total s now receive_error h e = cc
  on_received_total s now timer h e = cc

module _ (is_timestamp : ℕ → Bool) (s : Station) (r : Round) where
  sync_time_panics :
      (o : Outcome NtpcError ℕ)
      → (sync_time is_timestamp s r o ≡ none) ↔ LacksTime is_timestamp r.shown o
  unfolding sync_time
  sync_time_panics (ok time) = ground arith
  sync_time_panics (err e) = (λ _. tt, λ _. refl)
  sync_time_panics panic = (λ _. tt, λ _. refl)

  resync_panics :
      (resync is_timestamp s r ≡ none)
      ↔ ((resync_after < sub_u64 r.checked s.last_time_sync) × LacksTime is_timestamp r.shown r.ntp)
  unfolding resync
  resync_panics = ground (arith, sync_time_panics r.ntp)

bind-eq-none :
    {A B : Type 0} (m : Option A) (f : A → Option B)
    → ((a : A) → f a ≢ none)
    → ((m >>= f) ≡ none) ↔ (m ≡ none)
bind-eq-none none f h = (λ e. refl, λ e. refl)
bind-eq-none (some a) f h = (λ e. absurd (h a e), λ e. cc)

-- With the 64 pulse codes of `main`, a round panics exactly when the clock was last set more than an
-- hour ago (as a 64-bit difference) and the time server gives no time, or a time that is no
-- timestamp: the decoder never panics.
pub round_panics :
    (is_timestamp : ℕ → Bool) (p : PackedStruct) (s : Station) (r : Round)
    → HasBuffer r.received
    → (round is_timestamp p s r ≡ none)
      ↔ ((resync_after < sub_u64 r.checked s.last_time_sync) × LacksTime is_timestamp r.shown r.ntp)
unfolding round
round_panics is_timestamp p s r h =
    let first = bind-eq-none (resync is_timestamp s r) _ λ x e.
      on_received_total p x.0 r.now r.received h
        ((bind-eq-none (on_received p x.0 r.now r.received) _ (λ y e'. some-ne-none _ e')).0 e) in
    let second = resync_panics is_timestamp s r in
    (λ e. second.0 (first.0 e), λ e. first.1 (second.1 e))

-- What a round needs to come to its end.
abbrev pub IsServed : (ℕ → Bool) → Round → Type 0
IsServed is_timestamp r =
    HasBuffer r.received × ((time : ℕ) × (r.ntp ≡ ok time) × (is_timestamp r.shown ≡ true))

pub round_served :
    (is_timestamp : ℕ → Bool) (p : PackedStruct) (s : Station) (r : Round)
    → IsServed is_timestamp r
    → (s' : Station) × (acts : List Action) × (round is_timestamp p s r ≡ some (s', acts))
round_served is_timestamp p s r (buffer, (time, answered, good)) =
    elim (Option-cases (round is_timestamp p s r)) [
      | inr ((s', acts), e) ↦ (s', acts, e)
      | inl e ↦
          let (_, lacks) = (round_panics is_timestamp p s r buffer).0 e in
          let bad : is_timestamp r.shown ≡ false =
            subst (LacksTime is_timestamp r.shown) answered lacks in
          absurd (cc (sym good ∙ bad))
    ]

-- The loop runs on: with the 64 pulse codes of `main`, and a time server that gives a timestamp
-- whenever it is asked, any number of rounds, whatever is received and whatever the clock shows,
-- comes to its end without a panic.
pub run_served :
    (is_timestamp : ℕ → Bool) (p : PackedStruct) (rs : List Round) (s : Station)
    → All (IsServed is_timestamp) rs
    → (s' : Station) × (acts : List Action) × (run is_timestamp p s rs ≡ some (s', acts))
unfolding run
run_served is_timestamp p [] s h = (s, [], refl)
run_served is_timestamp p (r ∷ rs) s (h, hs) =
    let (t, first, e) = round_served is_timestamp p s r h in
    let (u, more, e') = run_served is_timestamp p rs t hs in (u, first ++ more, rw (e, e'))
