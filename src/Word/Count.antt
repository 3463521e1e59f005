-- ===== src/Word/Count.antt =====
-- `__builtin_popcountll`, and counting the numbers below a bound that pass a test.
use apex_engine.Common.{
  ℕ, zero, suc, ◌+◌, ◌≤◌, ◌<◌, ◌≡◌, refl, ◌∙◌, ap, ap₂, arith, Bool, true, false, ◌≢◌, ℕ_discrete,
  if◌then◌else◌,
}
use apex_engine.Word.{test_bit}

unfoldable pub count_below : ℕ → (ℕ → Bool) → ℕ
count_below zero p = 0
count_below (suc n) p = count_below n p + (if p n then 1 else 0)

pub popcount64 : ℕ → ℕ
popcount64 m = count_below 64 (test_bit m)

pub count_below-le : (n : ℕ) (p : ℕ → Bool) → count_below n p ≤ n
unfolding count_below
count_below-le zero p = omega arith
count_below-le (suc n) p = ground (arith, count_below-le n p)

pub count_below-congr :
    (n : ℕ) (p q : ℕ → Bool) → ((i : ℕ) → i < n → p i ≡ q i) → count_below n p ≡ count_below n q
unfolding count_below
count_below-congr zero p q h = refl
count_below-congr (suc n) p q h =
    ap₂ ◌+◌ (count_below-congr n p q (λ i k. h i (omega arith)))
      (ap (λ b. if b then 1 else 0) (h n (omega arith)))

-- Counting `m` numbers more.
pub count_below-add :
    (n m : ℕ) (p : ℕ → Bool)
    → count_below (n + m) p ≡ count_below n p + count_below m (λ i. p (n + i))
unfolding count_below
count_below-add n zero p =
    ap (λ (k : ℕ). count_below k p) {x = n + 0} {y = n} (omega arith) ∙ omega arith
count_below-add n (suc m) p =
    ap (λ (k : ℕ). count_below k p) {x = n + suc m} {y = suc (n + m)} (omega arith)
    ∙ omega (arith, count_below-add n m p)

-- Numbers that fail the test do not count.
pub count_below-pad :
    (n m : ℕ) (p : ℕ → Bool)
    → ((i : ℕ) → n ≤ i → i < n + m → p i ≡ false)
    → count_below (n + m) p ≡ count_below n p
unfolding count_below
count_below-pad n zero p h = ap (λ (k : ℕ). count_below k p) {x = n + 0} {y = n} (omega arith)
count_below-pad n (suc m) p h =
    ap (λ (k : ℕ). count_below k p) {x = n + suc m} {y = suc (n + m)} (omega arith)
    ∙ ground (
      arith,
      count_below-pad n m p (λ i a b. h i a (omega arith)),
      h (n + m) (omega arith) (omega arith),
    )

pub popcount64-congr :
    (m : ℕ) (q : ℕ → Bool)
    → ((i : ℕ) → i < 64 → test_bit m i ≡ q i)
    → popcount64 m ≡ count_below 64 q
unfolding popcount64
popcount64-congr m q h = count_below-congr 64 (test_bit m) q h

-- One number less is counted.
pub count_below-less :
    (n i : ℕ) (f g : ℕ → Bool)
    → i < n
    → f i ≡ true
    → g i ≡ false
    → ((k : ℕ) → k ≢ i → g k ≡ f k)
    → count_below n g + 1 ≡ count_below n f
unfolding count_below
count_below-less zero i f g h t u same = absurd (omega arith)
count_below-less (suc n) i f g h t u same = elim (ℕ_discrete n i) [
  | yes here ↦
      let below = count_below-congr n g f (λ k hk. same k (omega (arith, here))) in
      let tn : f n ≡ true = ap f here ∙ t in
      let un : g n ≡ false = ap g here ∙ u in ground (arith, below, tn, un)
  | no there ↦
      ground (arith, count_below-less n i f g (omega (arith, there)) t u same, same n there)
]
