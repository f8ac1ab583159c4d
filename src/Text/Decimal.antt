-- ===== src/Text/Decimal.antt =====
-- The decimal print of an unsigned number (Rust's `Display`), and reading it back.
use native.Mathlib.Nat.{pow-suc, pow-zero}
use esp_rf_ook.Prelude.{
  ◌^◌, ◌≤◌, length, ℕ, zero, suc, ◌+◌, ◌-◌, ◌*◌, ◌/◌, ◌%◌, ◌<◌, ◌≡◌, refl, ◌∙◌, Bool, true,
  Bool-cases, inl, inr, List, [], ◌∷◌, ◌++◌, arith, ltb, in_range, if◌then◌else◌,
}

decimal_from : ℕ → ℕ → List ℕ → List ℕ
decimal_from zero n out = out
decimal_from (suc fuel) n out =
    let digits = (b'0' + n % 10) ∷ out in
    let rest = decimal_from fuel (n / 10) digits in if ltb n 10 then digits else rest

-- One round for each digit: `n + 1` rounds are enough.
unfoldable pub decimal : ℕ → List ℕ
unfolding decimal_from
decimal n = decimal_from (suc n) n []

abbrev pub is_digit : ℕ → Bool
is_digit c = in_range b'0' (b'9' + 1) c

-- The number that the digits at the front continue, and the rest.
unfoldable pub read_number : ℕ → List ℕ → ℕ × List ℕ
read_number acc [] = (acc, [])
read_number acc (c ∷ cs) =
    let rest = read_number (acc * 10 + (c - b'0')) cs in if is_digit c then rest else (acc, c ∷ cs)

read_digit :
    (acc n : ℕ) (out : List ℕ)
    → read_number acc ((b'0' + n % 10) ∷ out) ≡ read_number (acc * 10 + n % 10) out
unfolding read_number
read_digit acc n out = ground arith

read-decimal_from :
    (fuel n : ℕ) (out : List ℕ)
    → n < fuel
    → read_number 0 (decimal_from fuel n out) ≡ read_number n out
unfolding decimal_from
read-decimal_from zero n out h = absurd (omega arith)
read-decimal_from (suc fuel) n out h = elim (Bool-cases (ltb n 10)) [
  | inl small ↦ let e : 0 * 10 + n % 10 ≡ n = ground arith in rw (small, read_digit 0 n out, e)
  | inr large ↦
      let e : n / 10 * 10 + n % 10 ≡ n = omega arith in
      rw large (
        read-decimal_from fuel (n / 10) ((b'0' + n % 10) ∷ out) (ground arith)
        ∙ rw (read_digit (n / 10) n out, e))
]

decimal_from-append :
    (fuel n : ℕ) (out rest : List ℕ)
    → decimal_from fuel n out ++ rest ≡ decimal_from fuel n (out ++ rest)
unfolding decimal_from
decimal_from-append zero n out rest = refl
decimal_from-append (suc fuel) n out rest = elim (Bool-cases (ltb n 10)) [
  | inl small ↦ rw small
  | inr large ↦ rw large (decimal_from-append fuel (n / 10) ((b'0' + n % 10) ∷ out) rest)
]

-- A number that is printed is read back, up to what continues its digits.
pub read-decimal : (n : ℕ) (rest : List ℕ) → read_number 0 (decimal n ++ rest) ≡ read_number n rest
unfolding decimal
read-decimal n rest =
    rw (decimal_from-append (suc n) n [] rest) (read-decimal_from (suc n) n rest (omega arith))

-- The print begins with a digit.
decimal_from_head :
    (fuel n : ℕ) (out : List ℕ)
    → n < fuel
    → (c : ℕ) × (cs : List ℕ) × (decimal_from fuel n out ≡ c ∷ cs) × (is_digit c ≡ true)
unfolding decimal_from
decimal_from_head zero n out h = absurd (omega arith)
decimal_from_head (suc fuel) n out h = elim (Bool-cases (ltb n 10)) [
  | inl small ↦ (b'0' + n % 10, out, rw small, ground arith)
  | inr large ↦
      let (c, cs, e, digit) =
        decimal_from_head fuel (n / 10) ((b'0' + n % 10) ∷ out) (ground arith) in
      (c, cs, rw large e, digit)
]

pub decimal_head : (n : ℕ) → (c : ℕ) × (cs : List ℕ) × (decimal n ≡ c ∷ cs) × (is_digit c ≡ true)
unfolding decimal
decimal_head n = decimal_from_head (suc n) n [] (omega arith)

-- One digit prints as one byte.
pub decimal_digit : (n : ℕ) → n < 10 → decimal n ≡ (b'0' + n) ∷ []
unfolding decimal decimal_from
decimal_digit n h = ground arith

length-decimal_from :
    (fuel n k : ℕ) (out : List ℕ)
    → n < 10 ^ suc k
    → length (decimal_from fuel n out) ≤ suc k + length out
unfolding decimal_from
length-decimal_from zero n k out h = omega arith
length-decimal_from (suc fuel) n zero out h =
    let small : ltb n 10 ≡ true = ground (arith, pow-suc 10 0, pow-zero 10) in
    rw small (omega arith)
length-decimal_from (suc fuel) n (suc k) out h = elim (Bool-cases (ltb n 10)) [
  | inl small ↦ rw small (omega arith)
  | inr large ↦
      let shorter : n / 10 < 10 ^ suc k = omega (arith, pow-suc 10 (suc k)) in
      rw large (omega (arith, length-decimal_from fuel (n / 10) k ((b'0' + n % 10) ∷ out) shorter))
]

-- A number below the power `10 ^ (k + 1)` is printed with at most `k + 1` digits.
pub length-decimal : (n k : ℕ) → n < 10 ^ suc k → length (decimal n) ≤ suc k
unfolding decimal
length-decimal n k h = omega (arith, length-decimal_from (suc n) n k [] h)
