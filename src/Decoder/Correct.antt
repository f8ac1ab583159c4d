-- ===== src/Decoder/Correct.antt =====
-- `decode` of src/decoder.rs against the description of a frame.
use mathlib.Core.Path.{subst}
use native.Mathlib.Decide.{dec_lt, ℕ_discrete}
use esp_rf_ook.Prelude.{
  ℕ, ◌≤◌, ◌<◌, ◌≡◌, ◌≢◌, refl, sym, ap, ◌∙◌, inl, inr, Bool, Bool-cases, some, List, arith, ◌==◌,
  ==_iff, ==-false, in_range_lt, in_range_ge, in_range, length, take, replicate, Forall₂, lengths,
  Outcome, ok, err, panic, ◌>>=◌, ◌>>◌, ensure,
}
use esp_rf_ook.Sensor.{SensorData, NexusThPayload, PackedStruct, from}
use esp_rf_ook.Decoder.{
  PulseCode, DecodeError, wrong_payload_len, sample_out_of_range, pulse_out_of_range,
  temp_out_of_range, wrong_channel, check_pulses, place_bits, slice_to, or_panic, or_err,
  payload_len_bytes, accept, decode,
}
use esp_rf_ook.Decoder.Bits.{Spells, FirstUnreadable}
use esp_rf_ook.Decoder.Samples.{collect_samples_lem}
use esp_rf_ook.Decoder.Placing.{place_bits_lem, place_bits_unreadable}
use esp_rf_ook.Decoder.Fields.{payload_of, layout-payload_of}
use esp_rf_ook.Decoder.Frame.{FirstBad, IsFrame, measured, pauses, Explains}
use esp_rf_ook.Decoder.Loops.{pulses_cases, check_pulses_good, check_pulses_bad, samples_cases}

-- The two tests of a measurement that was read.
abbrev judge : ℕ → SensorData → Outcome DecodeError SensorData
judge ch res =
    ensure (in_range 0 60 res.temp_int) (temp_out_of_range res.sign res.temp_int)
    >> (ensure (ch == res.channel) (wrong_channel res.channel) >> ok res)

length-pauses : (pulses : List PulseCode) → 37 ≤ length pulses → length (pauses pulses) ≡ 36
length-pauses pulses h = simp lengths (omega arith)

module _ (p : PackedStruct) where
  -- What is left of `decode` behind the length test, the slice and the pulse test.
  rest_of : List PulseCode → ℕ → Outcome DecodeError SensorData
  rest_of pulses ch = place_bits (pauses pulses) 0 (replicate payload_len_bytes 0) >>= accept p ch

  slice_to_lem :
      (pulses : List PulseCode) → 37 ≤ length pulses → slice_to pulses 37 ≡ some (take 37 pulses)
  unfolding slice_to
  slice_to_lem pulses h = ground arith

  decode-rest_of :
      (pulses : List PulseCode) (ch : ℕ)
      → 37 ≤ length pulses
      → check_pulses (take 37 pulses) ≡ ok tt
      → decode p pulses ch 37 ≡ rest_of pulses ch
  unfolding decode rest_of or_panic
  decode-rest_of pulses ch h c = rw (slice_to_lem pulses h, c, collect_samples_lem pulses h)

  accept-judge :
      (ch : ℕ) (bytes : List ℕ) (pld : NexusThPayload)
      → p.unpack bytes ≡ some pld
      → accept p ch bytes ≡ judge ch (from pld)
  unfolding accept or_err
  accept-judge ch bytes pld e = rw e

  rest_of-judge :
      (pulses : List PulseCode) (ch : ℕ) (bits : List Bool)
      → Forall₂ Spells bits (pauses pulses)
      → length bits ≡ 36
      → rest_of pulses ch ≡ judge ch (measured bits)
  unfolding rest_of
  rest_of-judge pulses ch bits h whole =
      let (out, e, five, bytes, number) = place_bits_lem bits (pauses pulses) h whole in
      let read = p.unpack_msb0 out five bytes ∙ ap some (layout-payload_of bits out whole number) in
      rw e (accept-judge ch out (payload_of bits) read)

  decode_short :
      (pulses : List PulseCode) (ch : ℕ) → length pulses < 37 → decode p pulses ch 37 ≡ panic
  unfolding decode slice_to or_panic
  decode_short pulses ch h = ground arith

  decode_bad :
      (pulses : List PulseCode) (ch m : ℕ)
      → 37 ≤ length pulses
      → FirstBad m (take 37 pulses)
      → decode p pulses ch 37 ≡ err (pulse_out_of_range m)
  unfolding decode or_panic
  decode_bad pulses ch m h bad = rw (slice_to_lem pulses h, check_pulses_bad _ m bad)

  rest_of_unreadable :
      (pulses : List PulseCode) (ch n : ℕ)
      → FirstUnreadable n (pauses pulses)
      → rest_of pulses ch ≡ err (sample_out_of_range n)
  unfolding rest_of
  rest_of_unreadable pulses ch n fault = rw (place_bits_unreadable n _ 0 _ fault)

  decode_wrong_len :
      (pulses : List PulseCode) (ch len : ℕ)
      → len ≢ 37
      → decode p pulses ch len ≡ err (wrong_payload_len len)
  unfolding decode
  decode_wrong_len pulses ch len n = ground arith

  decode-judge :
      (pulses : List PulseCode) (ch len : ℕ) (bits : List Bool)
      → IsFrame pulses len bits
      → decode p pulses ch len ≡ judge ch (measured bits)
  decode-judge pulses ch len bits f = rw f.symbols (
      decode-rest_of pulses ch f.received (check_pulses_good _ f.carrier)
      ∙ rest_of-judge pulses ch bits f.spelled f.whole)

  judge-Explains :
      (pulses : List PulseCode) (ch len : ℕ) (bits : List Bool)
      → IsFrame pulses len bits
      → Explains pulses ch len (judge ch (measured bits))
  judge-Explains pulses ch len bits f = elim (Bool-cases (in_range 0 60 (measured bits).temp_int)) [
    | inr hot ↦ rw hot (bits, f, refl, refl, in_range_ge 60 _ hot)
    | inl mild ↦ elim (Bool-cases (ch == (measured bits).channel)) [
      | inr other ↦ rw (mild, other) (bits, f, in_range_lt 0 60 _ mild, refl, ==-false ch _ other)
      | inl same ↦
          rw (mild, same) (bits, f, refl, in_range_lt 0 60 _ mild, sym ((==_iff ch _).0 same))
    ]
  ]

  decode_at_37 : (pulses : List PulseCode) (ch : ℕ) → Explains pulses ch 37 (decode p pulses ch 37)
  decode_at_37 pulses ch = elim (dec_lt (length pulses) 37) [
    | yes short ↦ rw (decode_short pulses ch short) (refl, short)
    | no long ↦ elim (pulses_cases (take 37 pulses)) [
      | inr (m, bad) ↦ rw (decode_bad pulses ch m (omega arith) bad) (refl, bad)
      | inl good ↦ elim (samples_cases (pauses pulses)) [
        | inr (n, fault) ↦
            rw
              (
                decode-rest_of pulses ch (omega arith) (check_pulses_good _ good),
                rest_of_unreadable pulses ch n fault,
              )
              (refl, good, fault)
        | inl (bits, spelled, same) ↦
            let f : IsFrame pulses 37 bits = record {
              symbols = refl;
              received = omega arith;
              carrier = good;
              spelled = spelled;
              whole = same ∙ length-pauses pulses (omega arith);
            } in
            rw (decode-judge pulses ch 37 bits f) (judge-Explains pulses ch 37 bits f)
      ]
    ]
  ]

  -- Every result of `decode` says of the input what `Explains` states: a measurement is that of the
  -- 36 bits which the pauses spell, with a temperature below 60 degrees and the channel asked for;
  -- each error names the first fault of its kind, all earlier tests passed; unpacking never fails;
  -- and `decode` panics exactly where 37 symbols are announced and the buffer is shorter.
  pub decode-Explains :
      (pulses : List PulseCode) (ch len : ℕ) → Explains pulses ch len (decode p pulses ch len)
  decode-Explains pulses ch len = elim (ℕ_discrete len 37) [
    | yes e ↦ rw e (decode_at_37 pulses ch)
    | no n ↦ rw (decode_wrong_len pulses ch len n) (refl, n)
  ]

  -- A buffer of 37 pulse codes or more is enough for `decode` not to panic, whatever it holds.
  pub decode_no_panic :
      (pulses : List PulseCode) (ch len : ℕ) → 37 ≤ length pulses → decode p pulses ch len ≢ panic
  decode_no_panic pulses ch len h e =
      absurd (omega (arith, (subst (Explains pulses ch len) e (decode-Explains pulses ch len)).1))
