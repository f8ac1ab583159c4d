-- ===== src/Decoder/Samples.antt =====
-- The sampling loop collects the pauses of the first 36 symbols.
use mathlib.Core.List.{append_assoc}
use esp_rf_ook.Prelude.{
  ℕ, zero, suc, ◌+◌, ◌≤◌, ◌≡◌, refl, ap, List, [], ◌∷◌, ◌++◌, map, arith, length, set, take,
  replicate, length-append,
}
use esp_rf_ook.Decoder.{PulseCode, sample, collect_samples, payload_len_bits}

set-append {ℓ} :
    {A : Type ℓ} (xs ys : List A) (y v : A) (i : ℕ)
    → i ≡ length xs
    → set (xs ++ y ∷ ys) i v ≡ (xs ++ v ∷ []) ++ ys
set-append [] ys y v zero h = refl
set-append [] ys y v (suc i) h = absurd (omega arith)
set-append (x ∷ xs) ys y v zero h = absurd (omega arith)
set-append (x ∷ xs) ys y v (suc i) h = ap (◌∷◌ x) (set-append xs ys y v i (omega arith))

collect_samples_from :
    (n : ℕ) (entries : List PulseCode) (idx : ℕ) (done : List ℕ)
    → idx + n ≡ payload_len_bits
    → idx ≡ length done
    → n ≤ length entries
    → collect_samples entries idx 37 (done ++ replicate n 0) ≡ done ++ map sample (take n entries)
unfolding collect_samples
collect_samples_from zero [] idx done e l h = refl
collect_samples_from zero (entry ∷ entries) idx done e l h = ground arith
collect_samples_from (suc n) [] idx done e l h = absurd (omega arith)
collect_samples_from (suc n) (entry ∷ entries) idx done e l h = ground (
  arith,
  set-append done (replicate n 0) 0 (sample entry) idx l,
  collect_samples_from n entries (idx + 1) (done ++ sample entry ∷ []),
  length-append done (sample entry ∷ []),
  append_assoc done (sample entry ∷ []) (map sample (take n entries)),
)

pub collect_samples_lem :
    (entries : List PulseCode)
    → 37 ≤ length entries
    → collect_samples entries 0 37 (replicate payload_len_bits 0) ≡ map sample (take 36 entries)
collect_samples_lem entries h = collect_samples_from 36 entries 0 [] refl refl (omega arith)
