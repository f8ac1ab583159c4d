-- ===== src/Station/Effect.antt =====
-- What one round does to the tracked measurement, and what it sends.
use mathlib.Core.Option.{some-injective}
use mathlib.Core.Path.{subst}
use esp_rf_ook.Prelude.{
  ℕ, ◌≡◌, refl, sym, ap, ◌∙◌, ◌⊎◌, inl, inr, Bool, Option, some, List, [], ◌∷◌, ◌++◌, arith,
  Outcome, ok, err, panic,
}
use esp_rf_ook.Prelude.Options.{>>=-eq-some}
use esp_rf_ook.Sensor.{SensorData, PackedStruct}
use esp_rf_ook.Decoder.{PulseCode, DecodeError, decode}
use esp_rf_ook.Station.{
  Station, Action, feed, set_current_time_us, send, Received, symbols, receive_error, timer, Round,
  on_measurement, sync_time, resync, on_decoded, on_received, round,
}

-- The messages among the actions.
abbrev pub sends : List Action → List (SensorData × ℕ)
sends [] = []
sends (feed ∷ acts) = sends acts
sends (set_current_time_us t ∷ acts) = sends acts
sends (send d t ∷ acts) = (d, t) ∷ sends acts

pub sends-append : (acts bs : List Action) → sends (acts ++ bs) ≡ sends acts ++ sends bs
sends-append [] bs = refl
sends-append (feed ∷ acts) bs = sends-append acts bs
sends-append (set_current_time_us t ∷ acts) bs = sends-append acts bs
sends-append (send d t ∷ acts) bs = ap (◌∷◌ (d, t)) (sends-append acts bs)

-- The two agree on all that the publishing rule looks at.
pub record Agree (s t : Station) : Type 0 where
  pub measurement : s.measurement ≡ t.measurement
  pub measurement_cnt : s.measurement_cnt ≡ t.measurement_cnt
  pub last_publish : s.last_publish ≡ t.last_publish

of_outcome : Outcome DecodeError SensorData → List SensorData
of_outcome (ok m) = m ∷ []
of_outcome (err e) = []
of_outcome panic = []

module _ (p : PackedStruct) where
  measured_from : Received → List SensorData
  unfolding of_outcome
  measured_from (symbols data' n) = of_outcome (decode p data' 1 n)
  measured_from receive_error = []
  measured_from timer = []

  -- The measurement that a round decodes, if it does.
  unfoldable pub accepted : Round → List SensorData
  unfolding measured_from
  accepted r = measured_from r.received

-- A measurement that was decoded comes from the symbols that the round received.
pub decoded_from :
    (p : PackedStruct) (r : Round) {m : SensorData}
    → accepted p r ≡ m ∷ []
    → (buffer : List PulseCode) × (n : ℕ) × (r.received ≡ symbols buffer n)
      × (decode p buffer 1 n ≡ ok m)
unfolding accepted measured_from of_outcome
decoded_from p r {m} h = at_received r.received refl h
  where
    at_outcome : (o : Outcome DecodeError SensorData) → of_outcome o ≡ m ∷ [] → o ≡ ok m
    at_outcome (ok m') e = cc
    at_outcome (err x) e = cc
    at_outcome panic e = cc

    at_received :
        (rc : Received)
        → r.received ≡ rc
        → measured_from p rc ≡ m ∷ []
        → (buffer : List PulseCode) × (n : ℕ) × (r.received ≡ symbols buffer n)
          × (decode p buffer 1 n ≡ ok m)
    at_received (symbols buffer n) e h = (buffer, n, e, at_outcome (decode p buffer 1 n) h)
    at_received receive_error e h = cc
    at_received timer e h = cc

-- A round that receives symbols which decode has this one measurement.
pub accepted_one :
    (p : PackedStruct) (r : Round) (buffer : List PulseCode) (n : ℕ) {m : SensorData}
    → r.received ≡ symbols buffer n
    → decode p buffer 1 n ≡ ok m
    → accepted p r ≡ m ∷ []
unfolding accepted measured_from of_outcome
accepted_one p r buffer n {m} h e = ap (λ rc. measured_from p rc) h ∙ ap (λ o. of_outcome o) e

pub accepted_cases :
    (p : PackedStruct) (r : Round)
    → (accepted p r ≡ []) ⊎ ((m : SensorData) × (accepted p r ≡ m ∷ []))
unfolding accepted
accepted_cases p r = at_received r.received
  where
    at_outcome :
        (o : Outcome DecodeError SensorData)
        → (of_outcome o ≡ []) ⊎ ((m : SensorData) × (of_outcome o ≡ m ∷ []))
    at_outcome (ok m) = inr (m, refl)
    at_outcome (err e) = inl refl
    at_outcome panic = inl refl

    at_received :
        (rc : Received)
        → (measured_from p rc ≡ []) ⊎ ((m : SensorData) × (measured_from p rc ≡ m ∷ []))
    at_received (symbols buffer n) = at_outcome (decode p buffer 1 n)
    at_received receive_error = inl refl
    at_received timer = inl refl

-- What the round with these measurements comes to.
abbrev pub Effect : Station → ℕ → List SensorData → Station → List (SensorData × ℕ) → Type 0
Effect s now [] s' sent = Agree s s' × (sent ≡ [])
Effect s now (m ∷ ms) s' sent =
    Agree (on_measurement s now m).0 s' × (sent ≡ sends (on_measurement s now m).1)

resync_keeps :
    (is_timestamp : ℕ → Bool) (s : Station) (r : Round) {s' : Station} {acts : List Action}
    → resync is_timestamp s r ≡ some (s', acts)
    → Agree s s' × (sends acts ≡ [])
unfolding resync sync_time
resync_keeps is_timestamp s r h = ground arith

on_measurement-Agree :
    (s t : Station) (now : ℕ) (m : SensorData)
    → Agree s t
    → Agree (on_measurement s now m).0 (on_measurement t now m).0
      × (sends (on_measurement s now m).1 ≡ sends (on_measurement t now m).1)
unfolding on_measurement
on_measurement-Agree s t now m a = ground arith

on_decoded-Effect :
    (s : Station) (now : ℕ) (o : Outcome DecodeError SensorData) {s' : Station} {acts : List Action}
    → on_decoded s now o ≡ some (s', acts)
    → Effect s now (of_outcome o) s' (sends acts)
unfolding on_decoded of_outcome
on_decoded-Effect s now (ok m) h = ground arith
on_decoded-Effect s now (err e) h = ground arith
on_decoded-Effect s now panic h = cc

on_received-Effect :
    (p : PackedStruct) (s : Station) (now : ℕ) (rc : Received) {s' : Station} {acts : List Action}
    → on_received p s now rc ≡ some (s', acts)
    → Effect s now (measured_from p rc) s' (sends acts)
unfolding on_received measured_from
on_received-Effect p s now (symbols buffer n) h = on_decoded-Effect s now (decode p buffer 1 n) h
on_received-Effect p s now receive_error h = ground arith
on_received-Effect p s now timer h = ground arith

-- Another state that agrees on what is tracked has the same effects.
Effect-Agree :
    (s t : Station) (now : ℕ) (ms : List SensorData) (s' : Station) (sent : List (SensorData × ℕ))
    → Agree s t
    → Effect t now ms s' sent
    → Effect s now ms s' sent
Effect-Agree s t now [] s' sent a (b, e) = (ground arith, e)
Effect-Agree s t now (m ∷ ms) s' sent a (b, e) = ground (arith, on_measurement-Agree s t now m a)

sends-round :
    (synced sent : List Action)
    → sends synced ≡ []
    → sends (feed ∷ (synced ++ (feed ∷ sent))) ≡ sends sent
sends-round synced sent silent =
    sends-append synced (feed ∷ sent) ∙ ap (λ l. l ++ sends sent) silent

module _ (is_timestamp : ℕ → Bool) (p : PackedStruct) (s : Station) (r : Round) where
  after_steps :
      (t u s' : Station) (synced sent acts : List Action)
      → resync is_timestamp s r ≡ some (t, synced)
      → on_received p t r.now r.received ≡ some (u, sent)
      → ◌≡◌ {A = Option (Station × List Action)}
          (some (u, feed ∷ (synced ++ (feed ∷ sent))))
          (some (s', acts))
      → Effect s r.now (accepted p r) s' (sends acts)
  unfolding accepted
  after_steps t u s' synced sent acts e e' e'' =
      let (same, silent) = resync_keeps is_timestamp s r e in
      let ms = measured_from p r.received in
      let effect =
        Effect-Agree s t r.now ms u (sends sent) same
          (on_received-Effect p t r.now r.received e') in
      subst (λ x. Effect s r.now ms x.0 (sends x.1)) (some-injective _ _ e'')
        (subst (Effect s r.now ms u) (sym (sends-round synced sent silent)) effect)

  -- A round that does not panic leaves the tracked fields as they were and sends nothing, or does
  -- what `on_measurement` does with the measurement that it decodes.
  pub round-Effect :
      {s' : Station} {acts : List Action}
      → round is_timestamp p s r ≡ some (s', acts)
      → Effect s r.now (accepted p r) s' (sends acts)
  unfolding round
  round-Effect {s'} {acts} h =
      let ((t, synced), e, h') = >>=-eq-some (resync is_timestamp s r) _ h in
      let ((u, sent), e', h'') = >>=-eq-some (on_received p t r.now r.received) _ h' in
      after_steps t u s' synced sent acts e e' h''
