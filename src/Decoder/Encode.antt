-- ===== src/Decoder/Encode.antt =====
-- A payload as the 36 bits of the README, and back.
use native.Mathlib.Nat.{mod-eq_of_lt, pow-suc, one-le-pow}
use esp_rf_ook.Prelude.{
  ℕ, zero, suc, ◌/◌, ◌%◌, ◌^◌, ◌<◌, ◌≡◌, refl, sym, ap, ◌∙◌, Bool, true, false, List, [], ◌∷◌, ◌++◌,
  arith, ◌==◌, length,
}
use esp_rf_ook.Prelude.Bytes.{bit, value, mod_double}
use esp_rf_ook.Sensor.{NexusThPayload}
use esp_rf_ook.Decoder.Fields.{payload_of}

-- The lowest `w` bits of a number, the most significant first.
abbrev pub bits_of : ℕ → ℕ → List Bool
bits_of zero n = []
bits_of (suc w) n = (n / 2 ^ w % 2 == 1) ∷ bits_of w n

abbrev pub frame_bits : NexusThPayload → List Bool
frame_bits pld =
    bits_of 8 pld.id
    ++ (pld.battery_ok
        ∷ (bits_of 1 pld.unknown_0
            ++ (bits_of 2 pld.channel
                ++ (bits_of 12 pld.temp_10x
                    ++ (bits_of 4 pld.unknown_1 ++ bits_of 8 pld.humidity)))))

-- The fields fit their widths.
pub record IsPayload (pld : NexusThPayload) : Type 0 where
  pub id : pld.id < 2 ^ 8
  pub unknown_0 : pld.unknown_0 < 2
  pub channel : pld.channel < 2 ^ 2
  pub temp_10x : pld.temp_10x < 2 ^ 12
  pub unknown_1 : pld.unknown_1 < 2 ^ 4
  pub humidity : pld.humidity < 2 ^ 8

length-bits_of : (w n : ℕ) → length (bits_of w n) ≡ w
length-bits_of zero n = refl
length-bits_of (suc w) n = ap suc (length-bits_of w n)

bit-of_parity : (n : ℕ) → bit (n % 2 == 1) ≡ n % 2
bit-of_parity n = ground arith

value-bits_of_mod : (w n : ℕ) → value (bits_of w n) ≡ n % 2 ^ w
value-bits_of_mod zero n = omega arith
value-bits_of_mod (suc w) n =
    rw (length-bits_of w n, bit-of_parity (n / 2 ^ w), value-bits_of_mod w n, pow-suc 2 w)
      (sym (mod_double n (2 ^ w) (one-le-pow w 2 (omega arith))))

value-bits_of : (w n : ℕ) → n < 2 ^ w → value (bits_of w n) ≡ n
value-bits_of w n h = value-bits_of_mod w n ∙ mod-eq_of_lt h

one_bit : (b : Bool) → (value (b ∷ []) == 1) ≡ b
one_bit true = refl
one_bit false = refl

pub payload_of-frame_bits :
    (pld : NexusThPayload) → IsPayload pld → payload_of (frame_bits pld) ≡ pld
payload_of-frame_bits pld h = λ i. record {
  id = value-bits_of 8 pld.id h.id i;
  battery_ok = one_bit pld.battery_ok i;
  unknown_0 = value-bits_of 1 pld.unknown_0 h.unknown_0 i;
  channel = value-bits_of 2 pld.channel h.channel i;
  temp_10x = value-bits_of 12 pld.temp_10x h.temp_10x i;
  unknown_1 = value-bits_of 4 pld.unknown_1 h.unknown_1 i;
  humidity = value-bits_of 8 pld.humidity h.humidity i;
}
