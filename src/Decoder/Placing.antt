-- ===== src/Decoder/Placing.antt =====
-- The loop that places the bits, over all the samples.
use esp_rf_ook.Prelude.{
  ℕ, zero, suc, ◌+◌, ◌-◌, ◌*◌, ◌^◌, ◌≤◌, ◌<◌, ◌≡◌, refl, ◌∙◌, inl, inr, Bool, true, false, List, [],
  ◌∷◌, arith, length, get_or, replicate, All, Forall₂, ok, err,
}
use esp_rf_ook.Prelude.Bytes.{value, big_endian, pow-add}
use esp_rf_ook.Decoder.{payload_len_bytes, sample_out_of_range, set_bit, clear_bit, place_bits}
use esp_rf_ook.Decoder.Bits.{
  Spells, FirstUnreadable, IsClear, facts, big_endian-set_bit, set_bit-IsClear, clear_bit-IsClear,
}

pub record IsPacked (bits : List Bool) (idx : ℕ) (before out : List ℕ) : Type 0 where
  pub five : length out ≡ 5
  pub byte : (j : ℕ) → get_or out j 0 < 256
  pub number : big_endian out ≡ big_endian before + value bits * 2 ^ (40 - idx - length bits)

abbrev Places : List Bool → List ℕ → ℕ → List ℕ → Type 0
Places bits samples idx decoded =
    (out : List ℕ) × (place_bits samples idx decoded ≡ ok out) × IsPacked bits idx decoded out

-- The weight of a bit that `len` others follow.
weight : (idx len : ℕ) → idx + suc len ≤ 40 → 2 ^ len * 2 ^ (40 - idx - suc len) ≡ 2 ^ (39 - idx)
weight idx len h =
    let e : 39 - idx ≡ len + (40 - idx - suc len) = omega arith in
    rw (e, pow-add 2 len (40 - idx - suc len))

module _ (bs : List Bool) (idx : ℕ) (decoded out : List ℕ) (room : idx + suc (length bs) ≤ 40) where
  more : 40 - (idx + 1) - length bs ≡ 40 - idx - suc (length bs)
  more = omega arith

  IsPacked-one :
      IsClear idx decoded
      → IsPacked bs (idx + 1) (set_bit decoded idx) out
      → IsPacked (true ∷ bs) idx decoded out
  IsPacked-one clear packed = record {
    five = packed.five;
    byte = packed.byte;
    number =
        packed.number
        ∙ rw (more, big_endian-set_bit idx decoded (omega arith) clear)
            (grind (arith, weight idx (length bs) room));
  }

  IsPacked-zero :
      IsClear idx decoded
      → IsPacked bs (idx + 1) (clear_bit decoded idx) out
      → IsPacked (false ∷ bs) idx decoded out
  IsPacked-zero clear packed = record {
    five = packed.five;
    byte = packed.byte;
    number = packed.number ∙ rw (more, (facts idx decoded (omega arith) clear).1) (omega arith);
  }

place_bits_from :
    (bits : List Bool) (samples : List ℕ) (idx : ℕ) (decoded : List ℕ)
    → Forall₂ Spells bits samples
    → idx + length bits ≤ 40
    → IsClear idx decoded
    → Places bits samples idx decoded
unfolding place_bits
place_bits_from [] [] idx decoded h room clear =
    (decoded, refl, record { five = clear.five; byte = clear.byte; number = omega arith })
place_bits_from [] (s ∷ ss) idx decoded h room clear = absurd h
place_bits_from (b ∷ bs) [] idx decoded h room clear = absurd h
place_bits_from (true ∷ bs) (s ∷ ss) idx decoded (spells, h) room clear =
    let (out, e, packed) =
      place_bits_from bs ss (idx + 1) (set_bit decoded idx) h (omega arith)
        (set_bit-IsClear idx decoded (omega arith) clear) in
    (out, ground (arith, e), IsPacked-one bs idx decoded out room clear packed)
place_bits_from (false ∷ bs) (s ∷ ss) idx decoded (spells, h) room clear =
    let (out, e, packed) =
      place_bits_from bs ss (idx + 1) (clear_bit decoded idx) h (omega arith)
        (clear_bit-IsClear idx decoded (omega arith) clear) in
    (out, ground (arith, e), IsPacked-zero bs idx decoded out room clear packed)

zeros : (j : ℕ) → get_or {A = ℕ} (replicate payload_len_bytes 0) j 0 ≡ 0
zeros zero = refl
zeros (suc zero) = refl
zeros (suc (suc zero)) = refl
zeros (suc (suc (suc zero))) = refl
zeros (suc (suc (suc (suc zero)))) = refl
zeros (suc (suc (suc (suc (suc j))))) = refl

All-of_get_or : (m : ℕ) (xs : List ℕ) → ((j : ℕ) → get_or xs j 0 < m) → All (λ b. b < m) xs
All-of_get_or m [] h = tt
All-of_get_or m (x ∷ xs) h = (h 0, All-of_get_or m xs (λ j. h (suc j)))

zeros-IsClear : IsClear 0 (replicate payload_len_bytes 0)
zeros-IsClear = record {
  five = refl;
  byte = λ j. rw (zeros j) (omega arith);
  tail = refl;
  rest = λ j h. zeros j;
}

-- Thirty-six pauses that spell bits fill the five bytes, with four zeros at the end.
pub place_bits_lem :
    (bits : List Bool) (samples : List ℕ)
    → Forall₂ Spells bits samples
    → length bits ≡ 36
    → (out : List ℕ) × (place_bits samples 0 (replicate payload_len_bytes 0) ≡ ok out)
      × (length out ≡ 5)
      × All (λ b. b < 256) out
      × (big_endian out ≡ value bits * 16)
place_bits_lem bits samples h whole =
    let (out, e, packed) =
      place_bits_from bits samples 0 (replicate payload_len_bytes 0) h (omega arith)
        zeros-IsClear in
    let width : 40 - 0 - length bits ≡ 4 = omega arith in
    (out, e, packed.five, All-of_get_or 256 out packed.byte, packed.number ∙ rw width (omega arith))

-- A pause that spells no bit ends the loop, whatever was placed before.
pub place_bits_unreadable :
    (n : ℕ) (samples : List ℕ) (idx : ℕ) (decoded : List ℕ)
    → FirstUnreadable n samples
    → place_bits samples idx decoded ≡ err (sample_out_of_range n)
unfolding place_bits
place_bits_unreadable n [] idx decoded h = absurd h
place_bits_unreadable n (s ∷ ss) idx decoded (inl (e, not_one, not_zero)) = ground arith
place_bits_unreadable n (s ∷ ss) idx decoded (inr ((true, sp), h)) =
    ground (arith, place_bits_unreadable n ss (idx + 1) (set_bit decoded idx) h)
place_bits_unreadable n (s ∷ ss) idx decoded (inr ((false, sp), h)) =
    ground (arith, place_bits_unreadable n ss (idx + 1) (clear_bit decoded idx) h)
