-- ===== src/Decoder/Transmit.antt =====
-- The signal of the README, as an encoder: what a sensor sends is decoded to what it measured.
use esp_rf_ook.Prelude.{
  ℕ, suc, ◌≤◌, ◌<◌, ◌≡◌, refl, Bool, true, false, List, [], ◌∷◌, ◌++◌, map, arith, length, take,
  All, Forall₂,
}
use esp_rf_ook.Decoder.{PulseCode, high, low, sample}
use esp_rf_ook.Decoder.Bits.{Spells}
use esp_rf_ook.Decoder.Frame.{IsGood, IsFrame}

-- A bit as a sensor keys it: how long the carrier is there, and how long the pause behind it is.
pub record Keying : Type 0 where
  pub bit : Bool
  pub pulse : ℕ
  pub pause : ℕ

-- A pulse of the README.
abbrev pub IsPulse : ℕ → Type 0
IsPulse pulse = (400 ≤ pulse) × (pulse ≤ 600)

-- A pause of the README for a bit, but for the last microsecond of a one.
abbrev pub IsPause : Bool → ℕ → Type 0
IsPause true pause = (1650 ≤ pause) × (pause < 2150)
IsPause false pause = (800 ≤ pause) × (pause ≤ 1000)

abbrev pub IsNexus : Keying → Type 0
IsNexus k = IsPulse k.pulse × IsPause k.bit k.pause

abbrev pub keyed : ℕ → ℕ → PulseCode
keyed pulse gap = record { level1 = high; length1 = pulse; level2 = low; length2 = gap }

-- A pulse and a pause for each bit, and a last pulse, behind which the line stays idle.
abbrev pub transmit : List Keying → ℕ → List PulseCode
transmit [] last = keyed last 0 ∷ []
transmit (k ∷ ks) last = keyed k.pulse k.pause ∷ transmit ks last

abbrev pub bits_keyed : List Keying → List Bool
bits_keyed ks = map (λ k. k.bit) ks

pause-Spells :
    (bit : Bool) (pulse pause : ℕ) → IsPause bit pause → Spells bit (sample (keyed pulse pause))
pause-Spells true pulse pause h = h
pause-Spells false pulse pause (least, most) = (least, omega (arith, most))

module _ (last : ℕ) (ends : IsPulse last) (noise : List PulseCode) where
  length-transmit : (ks : List Keying) → length (bits_keyed ks) < length (transmit ks last ++ noise)
  length-transmit [] = omega arith
  length-transmit (k ∷ ks) = omega (arith, length-transmit ks)

  keyed-IsGood : (pulse gap : ℕ) → IsPulse pulse → IsGood (keyed pulse gap)
  keyed-IsGood pulse gap h = omega arith

  transmit-IsGood :
      (ks : List Keying)
      → All IsNexus ks
      → All IsGood (take (suc (length (bits_keyed ks))) (transmit ks last ++ noise))
  transmit-IsGood [] h = (keyed-IsGood last 0 ends, tt)
  transmit-IsGood (k ∷ ks) (h, more) = (keyed-IsGood k.pulse k.pause h.0, transmit-IsGood ks more)

  transmit-Spells :
      (ks : List Keying)
      → All IsNexus ks
      → Forall₂ Spells
          (bits_keyed ks)
          (map sample (take (length (bits_keyed ks)) (transmit ks last ++ noise)))
  transmit-Spells [] h = tt
  transmit-Spells (k ∷ ks) (h, more) =
      (pause-Spells k.bit k.pulse k.pause h.1, transmit-Spells ks more)

  pub transmit-IsFrame :
      (ks : List Keying)
      → All IsNexus ks
      → length (bits_keyed ks) ≡ 36
      → IsFrame (transmit ks last ++ noise) 37 (bits_keyed ks)
  transmit-IsFrame ks nexus h = record {
    symbols = refl;
    received = omega (arith, length-transmit ks);
    carrier = rw h at (transmit-IsGood ks nexus);
    spelled = rw h at (transmit-Spells ks nexus);
    whole = h;
  }
