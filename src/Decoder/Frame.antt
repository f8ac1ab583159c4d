-- ===== src/Decoder/Frame.antt =====
-- What a frame is, said without the loops: its high pulses, its pauses, and the bits they spell.
use esp_rf_ook.Prelude.{
  ℕ, ◌≤◌, ◌<◌, ◌≡◌, ◌≢◌, ◌⊎◌, Bool, List, [], ◌∷◌, map, length, take, All, Forall₂, Outcome, ok,
  err, panic,
}
use esp_rf_ook.Sensor.{SensorData, from}
use esp_rf_ook.Decoder.{
  PulseCode, Level, high, low, DecodeError, wrong_payload_len, sample_out_of_range,
  pulse_out_of_range, wrong_channel, temp_out_of_range, unpack_failed, sample, pulse_min, pulse_max,
}
use esp_rf_ook.Decoder.Bits.{Spells, FirstUnreadable}
use esp_rf_ook.Decoder.Fields.{payload_of}

-- A high pulse has the width of a carrier pulse.
abbrev pub IsGoodLevel : Level → ℕ → Type 0
IsGoodLevel high n = (pulse_min ≤ n) × (n < pulse_max)
IsGoodLevel low n = Unit

abbrev pub IsGood : PulseCode → Type 0
IsGood e = IsGoodLevel e.level1 e.length1 × IsGoodLevel e.level2 e.length2

-- A high pulse of length `n`, which is out of range.
abbrev pub BadLevel : Level → ℕ → ℕ → Type 0
BadLevel high len n = (n ≡ len) × ((len < pulse_min) ⊎ (pulse_max ≤ len))
BadLevel low len n = ⊥

-- The first bad pulse in the order of time has the length `n`.
abbrev pub FirstBad : ℕ → List PulseCode → Type 0
FirstBad n [] = ⊥
FirstBad n (e ∷ es) =
    BadLevel e.level1 e.length1 n
    ⊎ IsGoodLevel e.level1 e.length1 × BadLevel e.level2 e.length2 n
    ⊎ IsGood e × FirstBad n es

-- The pauses of the first 36 symbols.
abbrev pub pauses : List PulseCode → List ℕ
pauses pulses = map sample (take 36 pulses)

-- Thirty-six symbols that spell the bits, and a terminator.
pub record IsFrame (pulses : List PulseCode) (len : ℕ) (bits : List Bool) : Type 0 where
  pub symbols : len ≡ 37
  pub received : 37 ≤ length pulses
  pub carrier : All IsGood (take 37 pulses)
  pub spelled : Forall₂ Spells bits (pauses pulses)
  pub whole : length bits ≡ 36

abbrev pub measured : List Bool → SensorData
measured bits = from (payload_of bits)

-- What each result of `decode` says of its input.
abbrev pub Explains : List PulseCode → ℕ → ℕ → Outcome DecodeError SensorData → Type 0
Explains pulses ch len (ok res) =
    (bits : List Bool) × IsFrame pulses len bits
    × (res ≡ measured bits)
    × (res.temp_int < 60)
    × (res.channel ≡ ch)
Explains pulses ch len (err (wrong_payload_len n)) = (n ≡ len) × (len ≢ 37)
Explains pulses ch len (err (pulse_out_of_range n)) = (len ≡ 37) × FirstBad n (take 37 pulses)
Explains pulses ch len (err (sample_out_of_range n)) =
    (len ≡ 37) × All IsGood (take 37 pulses) × FirstUnreadable n (pauses pulses)
Explains pulses ch len (err (temp_out_of_range sign t)) =
    (bits : List Bool) × IsFrame pulses len bits
    × (sign ≡ (measured bits).sign)
    × (t ≡ (measured bits).temp_int)
    × (60 ≤ t)
Explains pulses ch len (err (wrong_channel c)) =
    (bits : List Bool) × IsFrame pulses len bits
    × ((measured bits).temp_int < 60)
    × (c ≡ (measured bits).channel)
    × (c ≢ ch)
Explains pulses ch len (err unpack_failed) = ⊥
Explains pulses ch len panic = (len ≡ 37) × (length pulses < 37)
