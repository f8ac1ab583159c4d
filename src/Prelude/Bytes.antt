-- ===== src/Prelude/Bytes.antt =====
-- Numbers as digits: bits and bytes read with the most significant first, and facts about the bit
-- operations on one byte.
use Prim.Native.Nat.{ℕ, zero, suc, ◌+◌, ◌-◌, ◌*◌, ◌/◌, ◌%◌, ◌^◌, ◌<◌, bit_and, bit_or}
use mathlib.Core.Path.{◌≡◌, refl, ap, ◌∙◌}
use mathlib.Core.Bool.{Bool, true, false, ◌&&◌}
use mathlib.Core.List.{List, [], ◌∷◌, ◌++◌}
use native.Mathlib.Omega.{arith}
use native.Mathlib.Nat.{pow-suc, pow-zero, zero-add, suc-add, one-mul, mod-lt, div-add-mod'}
use esp_rf_ook.Prelude.Tests.{◌==◌, ltb, if◌then◌else◌}
use esp_rf_ook.Prelude.Lists.{length, get_or, set, length-append, length-set}

abbrev pub bit : Bool → ℕ
bit true = 1
bit false = 0

-- The number that bits spell, the most significant first.
abbrev pub value : List Bool → ℕ
value [] = 0
value (b ∷ bs) = bit b * 2 ^ length bs + value bs

-- Bytes as one number, the most significant byte first.
abbrev pub big_endian : List ℕ → ℕ
big_endian [] = 0
big_endian (b ∷ bs) = b * 256 ^ length bs + big_endian bs

pub pow-add : (b m n : ℕ) → b ^ (m + n) ≡ b ^ m * b ^ n
pow-add b zero n = rw (zero-add, pow-zero, one-mul)
pow-add b (suc m) n = rw (suc-add, pow-suc b (m + n), pow-suc b m, pow-add b m n) (omega arith)

pub value-lt : (bs : List Bool) → value bs < 2 ^ length bs
value-lt [] = omega arith
value-lt (true ∷ bs) = omega (arith, value-lt bs, pow-suc 2 (length bs))
value-lt (false ∷ bs) = omega (arith, value-lt bs, pow-suc 2 (length bs))

pub value-append : (xs ys : List Bool) → value (xs ++ ys) ≡ value xs * 2 ^ length ys + value ys
value-append [] ys = omega arith
value-append (x ∷ xs) ys =
    rw (length-append xs ys, pow-add 2 (length xs) (length ys)) (omega (arith, value-append xs ys))

-- The digits of a list as `big_endian` reads them, one replaced.
pub big_endian-set :
    (bs : List ℕ) (i d : ℕ)
    → i < length bs
    → big_endian (set bs i (get_or bs i 0 + d)) ≡ big_endian bs + d * 256 ^ (length bs - 1 - i)
big_endian-set [] i d h = elim h [ ]
big_endian-set (b ∷ bs) zero d h =
    let e : suc (length bs) - 1 - 0 ≡ length bs = omega arith in rw e (omega arith)
big_endian-set (b ∷ bs) (suc i) d h =
    let e : suc (length bs) - 1 - suc i ≡ length bs - 1 - i = omega arith in
    rw (e, length-set bs i (get_or bs i 0 + d)) (omega (arith, big_endian-set bs i d))

-- The test succeeds on all numbers under the limit.
unfoldable pub passes : (ℕ → Bool) → ℕ → Bool
passes test zero = true
passes test (suc limit) = passes test limit && test limit

pub passes-apply :
    (test : ℕ → Bool) (limit n : ℕ) → passes test limit ≡ true → n < limit → test n ≡ true
unfolding passes
passes-apply test zero n all under = absurd (omega arith)
passes-apply test (suc limit) n all under =
    let earlier : n < limit → test n ≡ true =
      λ before. passes-apply test limit n (ground arith) before in
    ground arith

-- Writing a one, or a zero, at bit `k` of a byte whose bits from `k` down are zero.
abbrev writes_bit : ℕ → ℕ → Bool
writes_bit k d =
    if d % 2 ^ (k + 1) == 0
    then (bit_or d (2 ^ k) == d + 2 ^ k)
      && (bit_and d (255 - 2 ^ k) == d)
      && ltb (d + 2 ^ k) 256
      && ((d + 2 ^ k) % 2 ^ k == 0)
      && (d % 2 ^ k == 0)
    else true

abbrev writes_bits : ℕ → Bool
writes_bits k = passes (writes_bit k) 256

bit_table : passes writes_bits 8 ≡ true
unfolding passes
bit_table = refl

pub write_bit :
    (k d : ℕ)
    → k < 8
    → d < 256
    → d % 2 ^ (k + 1) ≡ 0
    → (bit_or d (2 ^ k) ≡ d + 2 ^ k)
      × (bit_and d (255 - 2 ^ k) ≡ d)
      × (d + 2 ^ k < 256)
      × ((d + 2 ^ k) % 2 ^ k ≡ 0)
      × (d % 2 ^ k ≡ 0)
write_bit k d hk hd h =
    let row = passes-apply writes_bits 8 k bit_table hk in
    let cell = passes-apply (writes_bit k) 256 d row hd in ground arith

pub div_of_split : (x m r : ℕ) → r < m → ((x * m + r) / m ≡ x) × ((x * m + r) % m ≡ r)
div_of_split x m r h = (grind arith, grind arith)

pub mod_double : (n m : ℕ) → 0 < m → n % (m * 2) ≡ n / m % 2 * m + n % m
mod_double n m h =
    let q = n / m in
    let b = q % 2 in
    let r = n % m in
    let small : b * m + r < m * 2 = grind (arith, mod-lt n h, mod-lt q {m = 2} (omega arith)) in
    let e : n ≡ q / 2 * (m * 2) + (b * m + r) =
      omega (arith, div-add-mod' n m, ap (λ (t : ℕ). t * m) (div-add-mod' q 2)) in
    ap (λ (t : ℕ). t % (m * 2)) e ∙ (div_of_split (q / 2) (m * 2) (b * m + r) small).1
