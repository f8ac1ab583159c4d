-- ===== src/Decoder.antt =====
-- `decode` of src/decoder.rs: from the pulses that the receiver counted to a measurement.
mod Samples
pub mod Bits
mod Placing
pub mod Fields
pub mod Frame
mod Loops
pub mod Correct
pub mod Measurement
pub mod Encode
pub mod Transmit
use Prim.Native.Nat.{bit_and, bit_or}
use esp_rf_ook.Prelude.{
  ℕ, suc, ◌+◌, ◌-◌, ◌/◌, ◌%◌, ◌^◌, Bool, true, false, not, ◌&&◌, ◌||◌, Option, none, some, List, [],
  ◌∷◌, ltb, ◌==◌, if◌then◌else◌, in_range, ℤ, length, get_or, set, take, replicate, Outcome, ok,
  err, panic, ◌>>=◌, ◌>>◌, ensure,
}
use esp_rf_ook.Sensor.{SensorData, PackedStruct, from}

abbrev pub payload_len_bits : ℕ
payload_len_bits = 36

abbrev pub payload_len_bytes : ℕ
payload_len_bytes = 5

abbrev pub pulse_min : ℕ
pulse_min = 300

abbrev pub pulse_max : ℕ
pulse_max = 650

abbrev pub min_high : ℕ
min_high = 1650

abbrev pub max_high : ℕ
max_high = 2150

abbrev pub min_low : ℕ
min_low = 800

abbrev pub max_low : ℕ
max_low = 1100

pub data DecodeError : Type 0 where
  wrong_payload_len : ℕ → DecodeError
  sample_out_of_range pulse_out_of_range : ℕ → DecodeError
  wrong_channel : ℕ → DecodeError
  temp_out_of_range : ℤ → ℕ → DecodeError
  unpack_failed : DecodeError

pub data Level : Type 0 where
  high low : Level

-- What the four accessors of esp-hal's `PulseCode` return.
pub record PulseCode : Type 0 where
  pub level1 : Level
  pub length1 : ℕ
  pub level2 : Level
  pub length2 : ℕ

-- `if let Level::High = level && !(PULSE_MIN..PULSE_MAX).contains(&len) { return Err(…) }`
pub check_level : Level → ℕ → Outcome DecodeError (Unit {0})
check_level high len = ensure (in_range pulse_min pulse_max len) (pulse_out_of_range len)
check_level low len = ok tt

pub check_pulses : List PulseCode → Outcome DecodeError (Unit {0})
unfolding check_level
check_pulses [] = ok tt
check_pulses (entry ∷ entries) = do
  check_level entry.level1 entry.length1
  check_level entry.level2 entry.length2
  check_pulses entries

-- The pause of a symbol.
abbrev pub pause : Level → ℕ → ℕ → ℕ
pause low length1 length2 = length1
pause high length1 length2 = length2

abbrev pub sample : PulseCode → ℕ
sample entry = pause entry.level1 entry.length1 entry.length2

-- The loop stops at the index `len` and at the last sample.
pub collect_samples : List PulseCode → ℕ → ℕ → List ℕ → List ℕ
collect_samples [] idx len samples = samples
collect_samples (entry ∷ entries) idx len samples =
    let rest = collect_samples entries (idx + 1) len (set samples idx (sample entry)) in
    if idx == len || idx == payload_len_bits then samples else rest

abbrev pub byte_at : List ℕ → ℕ → ℕ
byte_at decoded idx = get_or decoded (idx / 8) 0

-- `decoded[idx / 8] |= 1 << (7 - idx % 8)`, and `&= !(1 << (7 - idx % 8))`, on u8.
pub set_bit : List ℕ → ℕ → List ℕ
set_bit decoded idx = set decoded (idx / 8) (bit_or (byte_at decoded idx) (2 ^ (7 - idx % 8)))

pub clear_bit : List ℕ → ℕ → List ℕ
clear_bit decoded idx =
    set decoded (idx / 8) (bit_and (byte_at decoded idx) (255 - 2 ^ (7 - idx % 8)))

pub place_bits : List ℕ → ℕ → List ℕ → Outcome DecodeError (List ℕ)
place_bits [] idx decoded = ok decoded
place_bits (value ∷ samples) idx decoded =
    let written = place_bits samples (idx + 1) (set_bit decoded idx) in
    let cleared = place_bits samples (idx + 1) (clear_bit decoded idx) in
    if in_range min_high max_high value
    then written
    else if in_range min_low max_low value
    then cleared
    else err (sample_out_of_range value)

-- `&pulses[..len]` panics beyond the end.
pub slice_to {ℓ} : {A : Type ℓ} → List A → ℕ → Option (List A)
slice_to xs len = if ltb (length xs) len then none else some (take len xs)

pub or_panic : {E A : Type 0} → Option A → Outcome E A
or_panic none = panic
or_panic (some a) = ok a

pub or_err : {E A : Type 0} → Option A → E → Outcome E A
or_err none e = err e
or_err (some a) e = ok a

module _ (p : PackedStruct) where
  -- What follows the loops: the bytes are unpacked and the measurement is checked.
  pub accept : ℕ → List ℕ → Outcome DecodeError SensorData
  unfolding or_err
  accept ch decoded = do
    unpacked ← or_err (p.unpack decoded) unpack_failed
    let res = from unpacked
    ensure (in_range 0 60 res.temp_int) (temp_out_of_range res.sign res.temp_int)
    ensure (ch == res.channel) (wrong_channel res.channel)
    ok res

  unfoldable pub decode : List PulseCode → ℕ → ℕ → Outcome DecodeError SensorData
  unfolding check_pulses collect_samples set_bit clear_bit place_bits slice_to or_panic accept
  decode pulses ch len = do
    ensure (len == payload_len_bits + 1) (wrong_payload_len len)
    entries ← or_panic (slice_to pulses len)
    check_pulses entries
    let samples = collect_samples pulses 0 len (replicate payload_len_bits 0)
    decoded ← place_bits samples 0 (replicate payload_len_bytes 0)
    accept ch decoded
