-- ===== src/Station/Liveness.antt =====
-- A measurement that stays is sent.
use mathlib.Core.Option.{some-injective}
use mathlib.Core.Path.{subst}
use esp_rf_ook.Prelude.{
  ℕ, zero, suc, ◌+◌, ◌≤◌, ◌<◌, min, ◌≡◌, ◌≢◌, refl, sym, ap, ◌∙◌, ◌⊎◌, inl, inr, Bool, true, false,
  some, List, [], ◌∷◌, ◌++◌, arith, length, All,
}
use esp_rf_ook.Prelude.Options.{>>=-eq-some}
use esp_rf_ook.Prelude.Words.{sub_u64}
use esp_rf_ook.Sensor.{SensorData, PackedStruct, equal}
use esp_rf_ook.Sensor.Equal.{equal_sym, equal_trans}
use esp_rf_ook.Station.{Station, Action, Round, publish_after, on_measurement, round, run}
use esp_rf_ook.Station.Cases.{on_measurement_cases}
use esp_rf_ook.Station.Effect.{
  sends, sends-append, Agree, accepted, accepted_cases, Effect, round-Effect,
}

-- After `n` measurements that equal `m`, with none sent since the time `last`.
record Seen (n : ℕ) (m : SensorData) (last : ℕ) (s : Station) : Type 0 where
  capped : s.measurement_cnt ≤ 3
  counted : min n 3 ≤ s.measurement_cnt
  tracked : 0 < n → equal s.measurement m ≡ true
  quiet : s.last_publish ≡ last

Seen-Agree :
    (n : ℕ) (m : SensorData) (last : ℕ) (s t : Station)
    → Agree s t
    → Seen n m last s
    → Seen n m last t
Seen-Agree n m last s t a k = record {
  capped = omega (arith, a.measurement_cnt, k.capped);
  counted = omega (arith, a.measurement_cnt, k.counted);
  tracked = λ h. subst (λ d. equal d m ≡ true) a.measurement (k.tracked h);
  quiet = sym a.last_publish ∙ k.quiet;
}

-- One more measurement that equals `m` is sent, or counted.
on_measurement-Seen :
    (n : ℕ) (m : SensorData) (last : ℕ) (s : Station) (now : ℕ) (d : SensorData)
    → Seen n m last s
    → equal m d ≡ true
    → (sends (on_measurement s now d).1 ≢ []) ⊎ Seen (suc n) m last (on_measurement s now d).0
on_measurement-Seen n m last s now d k same = elim (on_measurement_cases s now d) [
  | inl (other, e) ↦ rw e (
      inr (record {
        capped = omega arith;
        counted = at_zero n (λ h. equal_trans s.measurement m d (k.tracked h) same) other;
        tracked = λ _. equal_sym m d same;
        quiet = k.quiet;
      }))
  | inr (inl (_, _, _, e)) ↦ rw e (inl (λ e. cc))
  | inr (inr (inl (here, few, e))) ↦ rw e (
      inr (record {
        capped = omega arith;
        counted = omega (arith, k.counted);
        tracked = λ _. equal_trans s.measurement d m here (equal_sym m d same);
        quiet = k.quiet;
      }))
  | inr (inr (inr (here, three, _, e))) ↦ rw e (
      inr (record {
        capped = k.capped;
        counted = omega arith;
        tracked = λ _. equal_trans s.measurement d m here (equal_sym m d same);
        quiet = k.quiet;
      }))
]
  where
    at_zero :
        (n : ℕ)
        → (0 < n → equal s.measurement d ≡ true)
        → equal s.measurement d ≡ false
        → min (suc n) 3 ≤ 1
    at_zero zero h other = omega arith
    at_zero (suc n) h other = absurd (cc (sym (h (omega arith)) ∙ other))

-- The last of them is sent, once three are counted and the five seconds are over.
sends-on_measurement :
    (n : ℕ) (m : SensorData) (last : ℕ) (s : Station) (now : ℕ) (d : SensorData)
    → Seen n m last s
    → 3 ≤ n
    → equal m d ≡ true
    → publish_after < sub_u64 now last
    → sends (on_measurement s now d).1 ≢ []
sends-on_measurement n m last s now d k three same gap = elim (on_measurement_cases s now d) [
  | inl (other, e) ↦
      absurd (cc (sym (equal_trans s.measurement m d (k.tracked (omega arith)) same) ∙ other))
  | inr (inl (_, _, _, e)) ↦ rw e (λ e. cc)
  | inr (inr (inl (_, few, e))) ↦ absurd (omega (arith, k.counted))
  | inr (inr (inr (_, _, wait, e))) ↦ absurd (
      omega
        (arith, wait (omega (arith, k.counted, k.capped)), ap (λ t. sub_u64 now t) k.quiet, gap))
]

-- The measurements of the round, if any, equal `m`.
abbrev pub Repeats : PackedStruct → SensorData → Round → Type 0
Repeats p m r = All (λ d. equal m d ≡ true) (accepted p r)

-- How many measurements the rounds decode.
abbrev pub heard : PackedStruct → List Round → ℕ
heard p [] = 0
heard p (r ∷ rs) = length (accepted p r) + heard p rs

module _ (p : PackedStruct) (m : SensorData) (last : ℕ) (s : Station) (r : Round) (n : ℕ) where
  Effect-Seen :
      (ms : List SensorData) (t : Station) (sent : List (SensorData × ℕ))
      → Seen n m last s
      → (ms ≡ []) ⊎ ((d : SensorData) × (ms ≡ d ∷ []))
      → All (λ d. equal m d ≡ true) ms
      → Effect s r.now ms t sent
      → (sent ≢ []) ⊎ Seen (length ms + n) m last t
  Effect-Seen [] t sent k _ _ (same, e) =
      let zero_more : 0 + n ≡ n = omega arith in rw zero_more (inr (Seen-Agree n m last s t same k))
  Effect-Seen (d ∷ []) t sent k _ (h, _) (same, e) =
      let one_more : 1 + n ≡ suc n = omega arith in
      rw (one_more, e)
        (elim (on_measurement-Seen n m last s r.now d k h) [
          | inl some_sent ↦ inl some_sent
          | inr k' ↦ inr (Seen-Agree (suc n) m last (on_measurement s r.now d).0 t same k')
        ])
  Effect-Seen (d ∷ d' ∷ ds) t sent k one _ _ = elim one [ inl e ↦ cc | inr (x, e) ↦ cc ]

append-ne-nil : (xs ys : List (SensorData × ℕ)) → (xs ≢ []) ⊎ (ys ≢ []) → xs ++ ys ≢ []
append-ne-nil [] ys (inl h) e = h refl
append-ne-nil [] ys (inr h) e = h e
append-ne-nil (x ∷ xs) ys _ e = cc

module _ (is_timestamp : ℕ → Bool) (p : PackedStruct) (m : SensorData) (last : ℕ) (r : Round)
    (d : SensorData) (decoded : accepted p r ≡ d ∷ []) (same : equal m d ≡ true)
    (gap : publish_after < sub_u64 r.now last) where
  last_sends :
      (n : ℕ) (s t : Station) (acts : List Action)
      → Seen n m last s
      → 3 ≤ n
      → round is_timestamp p s r ≡ some (t, acts)
      → sends acts ≢ []
  last_sends n s t acts k three e =
      let effect = round-Effect is_timestamp p s r e in
      let (_, sent) : Effect s r.now (d ∷ []) t (sends acts) = rw decoded at effect in
      rw sent (sends-on_measurement n m last s r.now d k three same gap)

  sends-run :
      (rs : List Round) (n : ℕ) (s : Station) {s' : Station} {acts : List Action}
      → Seen n m last s
      → 3 ≤ heard p rs + n
      → All (Repeats p m) rs
      → run is_timestamp p s (rs ++ r ∷ []) ≡ some (s', acts)
      → sends acts ≢ []
  unfolding run
  sends-run [] n s {s'} {acts} k three all h =
      let ((t, first), e, h') = >>=-eq-some (round is_timestamp p s r) _ h in
      let joined = sym (sends-append first []) ∙ ap (λ x. sends x.1) (some-injective _ _ h') in
      subst (λ l. l ≢ []) joined
        (append-ne-nil (sends first) [] (inl (last_sends n s t first k (omega arith) e)))
  sends-run (r' ∷ rs) n s {s'} {acts} k three (here, all) h =
      let ((t, first), e, h') = >>=-eq-some (round is_timestamp p s r') _ h in
      let ((u, more), e', h'') = >>=-eq-some (run is_timestamp p t (rs ++ r ∷ [])) _ h' in
      let joined = sym (sends-append first more) ∙ ap (λ x. sends x.1) (some-injective _ _ h'') in
      subst (λ l. l ≢ []) joined
        (append-ne-nil (sends first) (sends more)
          (elim (Effect-Seen p m last s r' n (accepted p r') t (sends first) k (accepted_cases p r')
            here (round-Effect is_timestamp p s r' e)) [
              | inl now ↦ inl now
              | inr k' ↦ inr (sends-run rs (length (accepted p r') + n) t k' (omega arith) all e')
            ]))

-- A measurement that stays is sent: from a state whose count is three at most, and in a run without a
-- panic, if the decoded measurements of a run all equal `m`, three of
-- them come before the last round, and that round decodes one more than five seconds after the last
-- message before the run, then the run sends a message. Rounds without a measurement may stand
-- between.
pub stable_measurement_sent :
    (is_timestamp : ℕ → Bool) (p : PackedStruct) (m : SensorData) (rs : List Round) (r : Round)
    (d : SensorData) (s : Station) {s' : Station} {acts : List Action}
    → s.measurement_cnt ≤ 3
    → All (Repeats p m) rs
    → 3 ≤ heard p rs
    → accepted p r ≡ d ∷ []
    → equal m d ≡ true
    → publish_after < sub_u64 r.now s.last_publish
    → run is_timestamp p s (rs ++ r ∷ []) ≡ some (s', acts)
    → sends acts ≢ []
stable_measurement_sent is_timestamp p m rs r d s capped all three decoded same gap h =
    sends-run is_timestamp p m s.last_publish r d decoded same gap rs 0 s
      (record {
        capped = capped;
        counted = omega arith;
        tracked = λ h. absurd (omega arith);
        quiet = refl;
      })
      (omega arith) all h
