-- ===== src/Decoder/Bits.antt =====
-- The loop that places the bits: the bytes it leaves are the 36 bits, the first one foremost.
use native.Mathlib.Decide.{dec_lt, ℕ_discrete}
use native.Mathlib.Nat.{zero-mod}
use esp_rf_ook.Prelude.{
  ℕ, ◌∙◌, ◌+◌, ◌-◌, ◌*◌, ◌/◌, ◌%◌, ◌^◌, ◌≤◌, ◌<◌, ◌≡◌, refl, ap, ◌≢◌, ◌⊎◌, Bool, true, false, List,
  [], ◌∷◌, arith, ◌==◌, ==_iff, length, get_or, set, length-set, set-get_or_self, get_or-set_self,
  get_or-set_ne,
}
use esp_rf_ook.Prelude.Bytes.{big_endian, big_endian-set, write_bit, passes, passes-apply}
use esp_rf_ook.Decoder.{min_high, max_high, min_low, max_low, byte_at, set_bit, clear_bit}

-- The lengths of a pause that stand for a bit.
abbrev pub Spells : Bool → ℕ → Type 0
Spells true s = (min_high ≤ s) × (s < max_high)
Spells false s = (min_low ≤ s) × (s < max_low)

-- The first pause that spells no bit has the length `n`.
abbrev pub FirstUnreadable : ℕ → List ℕ → Type 0
FirstUnreadable n [] = ⊥
FirstUnreadable n (s ∷ ss) =
    (n ≡ s) × ¬ Spells true s × ¬ Spells false s ⊎ ((b : Bool) × Spells b s) × FirstUnreadable n ss

-- The bits before `idx` are written, and none of the others.
pub record IsClear (idx : ℕ) (decoded : List ℕ) : Type 0 where
  pub five : length decoded ≡ 5
  pub byte : (j : ℕ) → get_or decoded j 0 < 256
  pub tail : byte_at decoded idx % 2 ^ (7 - idx % 8 + 1) ≡ 0
  pub rest : (j : ℕ) → idx / 8 < j → get_or decoded j 0 ≡ 0

shift_table : passes (λ idx. 2 ^ (7 - idx % 8) * 256 ^ (4 - idx / 8) == 2 ^ (39 - idx)) 40 ≡ true
unfolding passes
shift_table = refl

shift : (idx : ℕ) → idx < 40 → 2 ^ (7 - idx % 8) * 256 ^ (4 - idx / 8) ≡ 2 ^ (39 - idx)
shift idx h = (==_iff _ _).0 (passes-apply _ 40 idx shift_table h)

-- The next bit goes to the same byte, or to the next one.
advance :
    (idx : ℕ) (decoded : List ℕ)
    → length decoded ≡ 5
    → ((j : ℕ) → get_or decoded j 0 < 256)
    → byte_at decoded idx % 2 ^ (7 - idx % 8) ≡ 0
    → ((j : ℕ) → idx / 8 < j → get_or decoded j 0 ≡ 0)
    → IsClear (idx + 1) decoded
advance idx decoded five byte low rest = record {
  five = five;
  byte = byte;
  tail = tail (dec_lt (idx % 8) 7);
  rest = λ j h. rest j (omega arith);
}
  where
    tail : Dec (idx % 8 < 7) → byte_at decoded (idx + 1) % 2 ^ (7 - (idx + 1) % 8 + 1) ≡ 0
    tail (yes h) =
        let same : (idx + 1) / 8 ≡ idx / 8 = omega arith in
        let width : 7 - (idx + 1) % 8 + 1 ≡ 7 - idx % 8 = omega arith in rw (same, width) low
    tail (no h) =
        let next : idx / 8 < (idx + 1) / 8 = omega arith in
        rw (rest ((idx + 1) / 8) next) (zero-mod (2 ^ (7 - (idx + 1) % 8 + 1)))

module _ (idx : ℕ) (decoded : List ℕ) (bound : idx < 40) (clear : IsClear idx decoded) where
  pub facts :
      let d = byte_at decoded idx in
      let k = 7 - idx % 8 in
      (set_bit decoded idx ≡ set decoded (idx / 8) (d + 2 ^ k))
      × (clear_bit decoded idx ≡ decoded)
      × (d + 2 ^ k < 256)
      × ((d + 2 ^ k) % 2 ^ k ≡ 0)
      × (d % 2 ^ k ≡ 0)
  unfolding set_bit clear_bit
  facts =
      let (or, and, small, low, low') =
        write_bit (7 - idx % 8) (byte_at decoded idx) (omega arith) (clear.byte (idx / 8))
          clear.tail in
      (
        ap (set decoded (idx / 8)) or,
        ap (set decoded (idx / 8)) and ∙ set-get_or_self decoded (idx / 8) 0,
        small,
        low,
        low',
      )

  pub big_endian-set_bit : big_endian (set_bit decoded idx) ≡ big_endian decoded + 2 ^ (39 - idx)
  big_endian-set_bit =
      let place : length decoded - 1 - idx / 8 ≡ 4 - idx / 8 = omega (arith, clear.five) in
      rw facts.0 (
        big_endian-set decoded (idx / 8) (2 ^ (7 - idx % 8)) (omega (arith, clear.five))
        ∙ rw place (rw (shift idx bound)))

  pub set_bit-IsClear : IsClear (idx + 1) (set_bit decoded idx)
  set_bit-IsClear =
      let (or, _, small, low, _) = facts in
      let d' = byte_at decoded idx + 2 ^ (7 - idx % 8) in
      let inside : idx / 8 < length decoded = omega (arith, clear.five) in
      let here = get_or-set_self decoded (idx / 8) d' 0 inside in
      let there = λ (j : ℕ) (h : idx / 8 ≢ j). get_or-set_ne decoded (idx / 8) j d' 0 h in
      rw or (
        advance idx (set decoded (idx / 8) d') (length-set decoded (idx / 8) d' ∙ clear.five)
          (λ j. elim (ℕ_discrete (idx / 8) j) [
            | yes e ↦ rw (← e, here) small
            | no n ↦ rw (there j n) (clear.byte j)
          ])
          (rw here low) (λ j h. there j (omega arith) ∙ clear.rest j h))

  pub clear_bit-IsClear : IsClear (idx + 1) (clear_bit decoded idx)
  clear_bit-IsClear =
      let (_, and, _, _, low) = facts in
      rw and (advance idx decoded clear.five clear.byte low clear.rest)
