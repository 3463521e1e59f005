-- ===== src/Jit/Expression/Columns.antt =====
-- What an expression on bit planes means, for all rows together: the columns of its arithmetic, and
-- the rows that its comparisons mark.
use apex_engine.Common.{
  ℕ, ◌≡◌, refl, ◌∙◌, ap, arith, Bool, true, false, List, [], ◌∷◌, ◌++◌, some, ltb, ◌&&◌, ◌==◌, Name,
  if◌then◌else◌,
}
use apex_engine.Word.{add64, sub64, IsU64}
use apex_engine.Ir.{NodePool, node_at, load, const, add, sub, gt, lt, and}
use apex_engine.Jit.Emit.{to_u64, c_string}
use apex_engine.Jit.Emit.Constants.{to_u64-IsU64}

-- The difference of `compile_expression` on row `r`: its carry starts as the number 1, a plane with
-- row 0 alone.
unfoldable pub difference : (r x y : ℕ) → ℕ
difference r x y = sub64 (sub64 x y) (if r == 0 then 0 else 1)

module _ (p : NodePool) (field : ℕ → Name → ℕ) where
  -- Arithmetic: the planes of node `i` have value `v r` on row `r`.
  pub data Column : ℕ → (ℕ → ℕ) → Type 0 where
    field_column :
        {i : ℕ}
        → (node_at p i).kind ≡ load
        → Column i (λ r. field r (c_string (node_at p i).field_name))
    const_column :
        {i : ℕ} → (node_at p i).kind ≡ const → Column i (λ r. to_u64 (node_at p i).const_value)
    sum_column :
        {i a b : ℕ} {x y : ℕ → ℕ}
        → (node_at p i).kind ≡ add
        → (node_at p i).left ≡ some a
        → (node_at p i).right ≡ some b
        → Column a x
        → Column b y
        → Column i (λ r. add64 (x r) (y r))
    difference_column :
        {i a b : ℕ} {x y : ℕ → ℕ}
        → (node_at p i).kind ≡ sub
        → (node_at p i).left ≡ some a
        → (node_at p i).right ≡ some b
        → Column a x
        → Column b y
        → Column i (λ r. difference r (x r) (y r))

  -- Comparison node `i` asks where `x` is greater than `y`.
  pub data Compares : ℕ → (x y : ℕ → ℕ) → Type 0 where
    greater :
        {i a b : ℕ} {x y : ℕ → ℕ}
        → (node_at p i).kind ≡ gt
        → (node_at p i).left ≡ some a
        → (node_at p i).right ≡ some b
        → Column a x
        → Column b y
        → Compares i x y
    less :
        {i a b : ℕ} {x y : ℕ → ℕ}
        → (node_at p i).kind ≡ lt
        → (node_at p i).left ≡ some a
        → (node_at p i).right ≡ some b
        → Column a x
        → Column b y
        → Compares i y x

  -- Node `i` marks the rows on which `t` is true.
  pub data Marks : ℕ → (ℕ → Bool) → Type 0 where
    compared : {i : ℕ} {x y : ℕ → ℕ} → Compares i x y → Marks i (λ r. ltb (y r) (x r))
    both :
        {i a b : ℕ} {s t : ℕ → Bool}
        → (node_at p i).kind ≡ and
        → (node_at p i).left ≡ some a
        → (node_at p i).right ≡ some b
        → Marks a s
        → Marks b t
        → Marks i (λ r. s r && t r)

  -- The comparisons of a list, all true.
  pub data Tests : List ℕ → (ℕ → Bool) → Type 0 where
    no_tests : Tests [] (λ r. true)
    more_tests :
        {i : ℕ} {rest : List ℕ} {x y : ℕ → ℕ} {t : ℕ → Bool}
        → Compares i x y
        → Tests rest t
        → Tests (i ∷ rest) (λ r. ltb (y r) (x r) && t r)

pub and_assoc : (a b c : Bool) → (a && (b && c)) ≡ ((a && b) && c)
and_assoc true b c = refl
and_assoc false b c = refl

module _ {p : NodePool} {field : ℕ → Name → ℕ} where
  pub Column-IsU64 :
      {i : ℕ} {v : ℕ → ℕ}
      → ((r : ℕ) (name : Name) → IsU64 (field r name))
      → Column p field i v
      → (r : ℕ) → IsU64 (v r)
  unfolding add64 sub64 difference
  Column-IsU64 small (field_column e) r = small r _
  Column-IsU64 small (const_column e) r = to_u64-IsU64 _
  Column-IsU64 small (sum_column e l q a b) r = omega arith
  Column-IsU64 small (difference_column e l q a b) r = omega arith

  pub Tests-append :
      {a b : List ℕ} {s t : ℕ → Bool}
      → Tests p field a s
      → Tests p field b t
      → (u : ℕ → Bool) × Tests p field (a ++ b) u × ((r : ℕ) → u r ≡ (s r && t r))
  Tests-append {t} no_tests q = (t, q, λ r. refl)
  Tests-append {t} (more_tests {x} {y} {t = s} c rest) q =
      let (u, w, e) = Tests-append rest q in
      (
        (λ r. ltb (y r) (x r) && u r),
        more_tests c w,
        λ r. ap (λ b. ltb (y r) (x r) && b) (e r) ∙ and_assoc (ltb (y r) (x r)) (s r) (t r),
      )
