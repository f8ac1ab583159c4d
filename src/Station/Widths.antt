-- ===== src/Station/Widths.antt =====
-- Every value of the receive loop fits its machine type.
use mathlib.Core.Option.{some-injective}
use mathlib.Core.Path.{subst}
use esp_rf_ook.Prelude.{
  ℕ, ◌^◌, ◌≤◌, ◌<◌, ◌≡◌, refl, sym, inl, inr, Bool, Bool-cases, Option, some, List, [], ◌∷◌, ◌++◌,
  arith, All, ltb, Outcome, ok, err, panic,
}
use esp_rf_ook.Prelude.Options.{>>=-eq-some}
use esp_rf_ook.Prelude.Words.{sub_u64, mul_u64}
use esp_rf_ook.Sensor.{SensorData, PackedStruct}
use esp_rf_ook.Sensor.Widths.{Fits, default-Fits, from-Fits}
use esp_rf_ook.Ntpc.{NtpcError}
use esp_rf_ook.Decoder.{PulseCode, DecodeError, decode}
use esp_rf_ook.Decoder.Fields.{payload_of}
use esp_rf_ook.Decoder.Frame.{Explains}
use esp_rf_ook.Decoder.Correct.{decode-Explains}
use esp_rf_ook.Decoder.Measurement.{field-lt}
use esp_rf_ook.Station.{
  Station, Action, feed, set_current_time_us, send, Received, symbols, receive_error, timer, Round,
  start, resync_after, on_measurement, sync_time, resync, on_decoded, on_received, round, run,
}
use esp_rf_ook.Station.Cases.{on_measurement_cases}

-- i32 for the count, which stays at three or less, and u64 for the times.
pub record FitsStation (s : Station) : Type 0 where
  pub measurement : Fits s.measurement
  pub measurement_cnt : s.measurement_cnt ≤ 3
  pub last_publish : s.last_publish < 2 ^ 64
  pub last_time_sync : s.last_time_sync < 2 ^ 64

abbrev pub FitsAction : Action → Type 0
FitsAction feed = Unit
FitsAction (set_current_time_us t) = t < 2 ^ 64
FitsAction (send m t) = Fits m × (t < 2 ^ 64)

-- The clock fits its u64 where the loop keeps what it reads.
abbrev pub FitsRound : Round → Type 0
FitsRound r = (r.synced < 2 ^ 64) × (r.now < 2 ^ 64)

pub decode-Fits :
    (p : PackedStruct) (pulses : List PulseCode) (ch len : ℕ) {m : SensorData}
    → decode p pulses ch len ≡ ok m
    → Fits m
decode-Fits p pulses ch len e =
    let (bits, _, same, _, _) =
      subst (Explains pulses ch len) e (decode-Explains p pulses ch len) in
    subst Fits (sym same) (from-Fits (payload_of bits) (field-lt 0 7 bits) (field-lt 12 23 bits))

abbrev FitsResult : Station × List Action → Type 0
FitsResult (s, acts) = FitsStation s × All FitsAction acts

on_measurement-Fits :
    (s : Station) (now : ℕ) (m : SensorData)
    → FitsStation s
    → now < 2 ^ 64
    → Fits m
    → FitsResult (on_measurement s now m)
on_measurement-Fits s now m k small f = elim (on_measurement_cases s now m) [
  | inl (_, e) ↦ rw e (
    record {
      measurement = f;
      measurement_cnt = omega arith;
      last_publish = k.last_publish;
      last_time_sync = k.last_time_sync;
    },
    tt,
  )
  | inr (inl (_, _, _, e)) ↦ rw e (
    record {
      measurement = k.measurement;
      measurement_cnt = k.measurement_cnt;
      last_publish = small;
      last_time_sync = k.last_time_sync;
    },
    ((f, small), tt),
  )
  | inr (inr (inl (_, few, e))) ↦ rw e (
    record {
      measurement = k.measurement;
      measurement_cnt = omega arith;
      last_publish = k.last_publish;
      last_time_sync = k.last_time_sync;
    },
    tt,
  )
  | inr (inr (inr (_, _, _, e))) ↦ rw e (k, tt)
]

sync_time-Fits :
    (is_timestamp : ℕ → Bool) (s : Station) (r : Round) (o : Outcome NtpcError ℕ)
    {res : Station × List Action}
    → FitsStation s
    → r.synced < 2 ^ 64
    → sync_time is_timestamp s r o ≡ some res
    → FitsResult res
unfolding sync_time
sync_time-Fits is_timestamp s r (ok time) {res} k small e =
    let set : FitsResult
        (record s { last_time_sync = r.synced }, set_current_time_us (mul_u64 time 1000000) ∷ []) =
      (
        record {
          measurement = k.measurement;
          measurement_cnt = k.measurement_cnt;
          last_publish = k.last_publish;
          last_time_sync = small;
        },
        (omega arith, tt),
      ) in
    elim (Bool-cases (is_timestamp r.shown)) [
      | inl good ↦ subst FitsResult (some-injective _ _ (rw good at e)) set
      | inr bad ↦ absurd (cc (rw bad at e))
    ]
sync_time-Fits is_timestamp s r (err x) k small e = cc
sync_time-Fits is_timestamp s r panic k small e = cc

resync-Fits :
    (is_timestamp : ℕ → Bool) (s : Station) (r : Round) {res : Station × List Action}
    → FitsStation s
    → r.synced < 2 ^ 64
    → resync is_timestamp s r ≡ some res
    → FitsResult res
unfolding resync
resync-Fits is_timestamp s r {res} k small e =
    elim (Bool-cases (ltb resync_after (sub_u64 r.checked s.last_time_sync))) [
      | inl due ↦ sync_time-Fits is_timestamp s r r.ntp k small (rw due at e)
      | inr early ↦
          let e' : ◌≡◌ {A = Option (Station × List Action)} (some (s, [])) (some res) =
            rw early at e in
          subst FitsResult (some-injective _ _ e') (k, tt)
    ]

on_decoded-Fits :
    (s : Station) (now : ℕ) (o : Outcome DecodeError SensorData) {res : Station × List Action}
    → FitsStation s
    → now < 2 ^ 64
    → ((m : SensorData) → o ≡ ok m → Fits m)
    → on_decoded s now o ≡ some res
    → FitsResult res
unfolding on_decoded
on_decoded-Fits s now (ok m) k small f e =
    subst FitsResult (some-injective _ _ e) (on_measurement-Fits s now m k small (f m refl))
on_decoded-Fits s now (err x) k small f e = subst FitsResult (some-injective _ _ e) (k, tt)
on_decoded-Fits s now panic k small f e = cc

on_received-Fits :
    (p : PackedStruct) (s : Station) (now : ℕ) (rc : Received) {res : Station × List Action}
    → FitsStation s
    → now < 2 ^ 64
    → on_received p s now rc ≡ some res
    → FitsResult res
unfolding on_received
on_received-Fits p s now (symbols buffer n) k small e =
    on_decoded-Fits s now (decode p buffer 1 n) k small (λ m h. decode-Fits p buffer 1 n h) e
on_received-Fits p s now receive_error k small e = subst FitsResult (some-injective _ _ e) (k, tt)
on_received-Fits p s now timer k small e = subst FitsResult (some-injective _ _ e) (k, tt)

All-append :
    (xs ys : List Action) → All FitsAction xs → All FitsAction ys → All FitsAction (xs ++ ys)
All-append [] ys hx hy = hy
All-append (x ∷ xs) ys (h, hx) hy = (h, All-append xs ys hx hy)

module _ (is_timestamp : ℕ → Bool) (p : PackedStruct) where
  round-Fits :
      (s : Station) (r : Round) {res : Station × List Action}
      → FitsStation s
      → FitsRound r
      → round is_timestamp p s r ≡ some res
      → FitsResult res
  unfolding round
  round-Fits s r k (synced, now) e =
      let ((t, first), e₁, e') = >>=-eq-some (resync is_timestamp s r) _ e in
      let ((u, more), e₂, e'') = >>=-eq-some (on_received p t r.now r.received) _ e' in
      let (kt, all_first) = resync-Fits is_timestamp s r k synced e₁ in
      let (ku, all_more) = on_received-Fits p t r.now r.received kt now e₂ in
      subst FitsResult (some-injective _ _ e'')
        (ku, (tt, All-append first (feed ∷ more) all_first (tt, all_more)))

  run-FitsResult :
      (rs : List Round) (s : Station) {res : Station × List Action}
      → FitsStation s
      → All FitsRound rs
      → run is_timestamp p s rs ≡ some res
      → FitsResult res
  unfolding run
  run-FitsResult [] s k all e = subst FitsResult (some-injective _ _ e) (k, tt)
  run-FitsResult (r ∷ rs) s k (h, all) e =
      let ((t, first), e₁, e') = >>=-eq-some (round is_timestamp p s r) _ e in
      let ((u, more), e₂, e'') = >>=-eq-some (run is_timestamp p t rs) _ e' in
      let (kt, all_first) = round-Fits s r k h e₁ in
      let (ku, all_more) = run-FitsResult rs t kt all e₂ in
      subst FitsResult (some-injective _ _ e'') (ku, All-append first more all_first all_more)

  -- In any run of the loop from its start on clocks of 64 bits, every number stays within its machine
  -- type: the tracked measurement fits its bytes and words, with a sign of 1 or -1, the count never
  -- exceeds three, the two times fit 64 bits; and so does all that the run sends or sets the clock to.
  pub run-start-Fits :
      (rs : List Round) (last_time_sync last_publish : ℕ) {s' : Station} {acts : List Action}
      → last_time_sync < 2 ^ 64
      → last_publish < 2 ^ 64
      → All FitsRound rs
      → run is_timestamp p (start last_time_sync last_publish) rs ≡ some (s', acts)
      → FitsStation s' × All FitsAction acts
  unfolding start
  run-start-Fits rs last_time_sync last_publish h h' all e =
      run-FitsResult rs (start last_time_sync last_publish)
        (record {
          measurement = default-Fits;
          measurement_cnt = omega arith;
          last_publish = h';
          last_time_sync = h;
        })
        all e
