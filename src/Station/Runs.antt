-- ===== src/Station/Runs.antt =====
-- What any run of the loop sends.
use mathlib.Core.Option.{some-injective}
use mathlib.Core.Path.{subst}
use esp_rf_ook.Prelude.{
  ℕ, ◌≡◌, refl, sym, ap, ◌∙◌, ◌⊎◌, inl, inr, Bool, some, List, [], ◌∷◌, ◌++◌, arith,
}
use esp_rf_ook.Prelude.Options.{>>=-eq-some}
use esp_rf_ook.Sensor.{SensorData, PackedStruct}
use esp_rf_ook.Station.{Station, Action, Round, start, on_measurement, round, run}
use esp_rf_ook.Station.Effect.{sends, sends-append, accepted, accepted_cases, Effect, round-Effect}
use esp_rf_ook.Station.Publishing.{
  Tracks, Tracks-Agree, on_measurement-Tracks, Confirmed, on_measurement-Confirmed,
}

-- What the messages of a run are, given the time of the last one and the measurements so far, the
-- latest first. A round sends nothing, or the measurement that it decodes, confirmed.
abbrev pub Published :
    PackedStruct → ℕ → List SensorData → List Round → List (SensorData × ℕ) → Type 0
Published p last history [] sent = sent ≡ []
Published p last history (r ∷ rs) sent =
    Published p last (accepted p r ++ history) rs sent
    ⊎ ((m : SensorData) × (later : List (SensorData × ℕ)) × (accepted p r ≡ m ∷ [])
        × (sent ≡ (m, r.now) ∷ later)
        × Confirmed last r.now m history
        × Published p r.now (m ∷ history) rs later)

-- What one round adds.
abbrev Sent :
    PackedStruct → Station → Round → List SensorData → Station → List (SensorData × ℕ) → Type 0
Sent p s r history s' sent =
    (sent ≡ []) × (s'.last_publish ≡ s.last_publish)
    ⊎ ((m : SensorData) × (accepted p r ≡ m ∷ [])
        × (sent ≡ (m, r.now) ∷ [])
        × (s'.last_publish ≡ r.now)
        × Confirmed s.last_publish r.now m history)

module _ (p : PackedStruct) (s : Station) (r : Round) (history : List SensorData)
    (k : Tracks s history) (s' : Station) (sent : List (SensorData × ℕ)) where
  abbrev Advances : Type 0
  Advances = Tracks s' (accepted p r ++ history) × Sent p s r history s' sent

  quiet : accepted p r ≡ [] → Effect s r.now [] s' sent → Advances
  quiet e (same, silent) =
      rw e (Tracks-Agree s s' history same k, inl (silent, sym same.last_publish))

  heard : (m : SensorData) → accepted p r ≡ m ∷ [] → Effect s r.now (m ∷ []) s' sent → Advances
  heard m e (same, sends_m) =
      let tracks : Tracks s' (m ∷ history) =
        Tracks-Agree (on_measurement s r.now m).0 s' (m ∷ history) same
          (on_measurement-Tracks s r.now m history k) in
      rw e (
        tracks,
        elim (on_measurement-Confirmed s r.now m history k) [
          | inl (silent, last) ↦ inl (sends_m ∙ silent, sym same.last_publish ∙ last)
          | inr (one, last, confirmed) ↦
              inr (m, refl, sends_m ∙ one, sym same.last_publish ∙ last, confirmed)
        ],
      )

  advances : Effect s r.now (accepted p r) s' sent → Advances
  advances effect = elim (accepted_cases p r) [
    | inl e ↦ quiet e (rw e at effect)
    | inr (m, e) ↦ heard m e (rw e at effect)
  ]

Published-next :
    (p : PackedStruct) (s t : Station) (r : Round) (rs : List Round) (history : List SensorData)
    (sent later : List (SensorData × ℕ))
    → Sent p s r history t sent
    → Published p t.last_publish (accepted p r ++ history) rs later
    → Published p s.last_publish history (r ∷ rs) (sent ++ later)
Published-next p s t r rs history sent later (inl (silent, last)) rest =
    rw silent (inl (subst (λ x. Published p x (accepted p r ++ history) rs later) last rest))
Published-next p s t r rs history sent later (inr (m, e, one, last, confirmed)) rest = rw one (
    inr (
      m,
      later,
      e,
      refl,
      confirmed,
      subst (λ x. Published p x (m ∷ history) rs later) last
          (subst (λ ms. Published p t.last_publish (ms ++ history) rs later) e rest),
    ))

module _ (is_timestamp : ℕ → Bool) (p : PackedStruct) where
  run-Published :
      (rs : List Round) (s : Station) (history : List SensorData) {s' : Station}
      {acts : List Action}
      → Tracks s history
      → run is_timestamp p s rs ≡ some (s', acts)
      → Published p s.last_publish history rs (sends acts)
  unfolding run
  run-Published [] s history k h = sym (ap (λ x. sends x.1) (some-injective _ _ h))
  run-Published (r ∷ rs) s history {s'} {acts} k h =
      let ((t, first), e, h') = >>=-eq-some (round is_timestamp p s r) _ h in
      let ((u, more), e', h'') = >>=-eq-some (run is_timestamp p t rs) _ h' in
      let (k', sent) =
        advances p s r history k t (sends first) (round-Effect is_timestamp p s r e) in
      let rest = run-Published rs t (accepted p r ++ history) k' e' in
      let joined = sym (sends-append first more) ∙ ap (λ x. sends x.1) (some-injective _ _ h'') in
      subst (Published p s.last_publish history (r ∷ rs)) joined
        (Published-next p s t r rs history (sends first) (sends more) sent rest)

  -- In any run of the loop from its start, a round sends at most one message: the measurement that
  -- it decoded, which agrees with each of the three decoded before it, and more than five seconds
  -- (as a 64-bit difference) after the message before, or after the start.
  pub run-start-Published :
      (rs : List Round) (last_time_sync last_publish : ℕ) {s' : Station} {acts : List Action}
      → run is_timestamp p (start last_time_sync last_publish) rs ≡ some (s', acts)
      → Published p last_publish [] rs (sends acts)
  unfolding start
  run-start-Published rs last_time_sync last_publish h =
      run-Published rs (start last_time_sync last_publish) []
        (record { capped = omega arith; known = omega arith; agree = tt }) h
