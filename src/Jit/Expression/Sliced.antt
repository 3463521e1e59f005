-- ===== src/Jit/Expression/Sliced.antt =====
-- The expressions that the kernel on bit planes evaluates as specified: comparisons by `GT` and `LT`
-- of sums of fields and constants, and conjunctions of these.
use Prim.Native.Nat.{bit_and}
use apex_engine.Common.{
  ℕ, ◌≡◌, refl, sym, ◌∙◌, ap, ap₂, Bool, true, false, List, [], ◌∷◌, ◌++◌, some, ltb, ◌&&◌, Name,
  ◌<◌, arith, suc, zero,
}
use apex_engine.Ir.{NodePool, NodeKind, Pointer, node_at, load, const, add, gt, lt, and}
use apex_engine.Ir.Acyclic.{IsAcyclic, PointsBelow}
use apex_engine.Jit.Scalar.Value.{
  Value, loaded, constant, binary, operation, flag, value_of_load, value_of_const,
}
use apex_engine.Jit.Expression.{collect_comparisons, is_comparison, is_and}
use apex_engine.Jit.Expression.Columns.{
  Column, field_column, const_column, sum_column, Compares, greater, less, Marks, compared, both,
  Tests, no_tests, more_tests, Tests-append,
}

module _ (p : NodePool) where
  pub data IsSum : ℕ → Type 0 where
    sum_load : {i : ℕ} → (node_at p i).kind ≡ load → IsSum i
    sum_const : {i : ℕ} → (node_at p i).kind ≡ const → IsSum i
    sum_add :
        {i a b : ℕ}
        → (node_at p i).kind ≡ add
        → (node_at p i).left ≡ some a
        → (node_at p i).right ≡ some b
        → IsSum a
        → IsSum b
        → IsSum i

  pub data IsPredicate : ℕ → Type 0 where
    by_gt :
        {i a b : ℕ}
        → (node_at p i).kind ≡ gt
        → (node_at p i).left ≡ some a
        → (node_at p i).right ≡ some b
        → IsSum a
        → IsSum b
        → IsPredicate i
    by_lt :
        {i a b : ℕ}
        → (node_at p i).kind ≡ lt
        → (node_at p i).left ≡ some a
        → (node_at p i).right ≡ some b
        → IsSum a
        → IsSum b
        → IsPredicate i
    by_and :
        {i a b : ℕ}
        → (node_at p i).kind ≡ and
        → (node_at p i).left ≡ some a
        → (node_at p i).right ≡ some b
        → IsPredicate a
        → IsPredicate b
        → IsPredicate i

-- A node has one value.
pub Value-unique :
    {p : NodePool} {field : Name → ℕ} {i v w : ℕ} → Value p field i v → Value p field i w → v ≡ w
Value-unique (loaded e) y = value_of_load e y
Value-unique (constant e) y = value_of_const e y
Value-unique x (loaded e) = sym (value_of_load e x)
Value-unique x (constant e) = sym (value_of_const e x)
Value-unique {p} {i} {v = v0} {w = w0} (binary {a} {b} {x} {y} l r u v o)
      (binary {a = a'} {b = b'} {x = x'} {y = y'} l' r' u' v' o') =
    let same_left : a' ≡ a = cc (l, l') in
    let same_right : b' ≡ b = cc (r, r') in
    let ex = Value-unique u (rw same_left at u') in
    let ey = Value-unique v (rw same_right at v') in
    let e : some v0 ≡ some w0 = sym o ∙ ap₂ (operation (node_at p i).kind) ex ey ∙ o' in cc e

bit_and-flag : (a b : Bool) → bit_and (flag a) (flag b) ≡ flag (a && b)
bit_and-flag true true = refl
bit_and-flag true false = refl
bit_and-flag false true = refl
bit_and-flag false false = refl

module _ (p : NodePool) (field : ℕ → Name → ℕ) where
  -- A sum has a column of values.
  record HasColumn (i : ℕ) : Type 0 where
    values : ℕ → ℕ
    column : Column p field i values
    specified : (r : ℕ) → Value p (field r) i (values r)

  IsSum-HasColumn : {i : ℕ} → IsSum p i → HasColumn i
  IsSum-HasColumn (sum_load e) = record {
    values = λ r. field r _;
    column = field_column e;
    specified = λ r. loaded e;
  }
  IsSum-HasColumn (sum_const e) = record {
    values = λ r. _;
    column = const_column e;
    specified = λ r. constant e;
  }
  IsSum-HasColumn (sum_add e l q a b) =
      let u = IsSum-HasColumn a in
      let v = IsSum-HasColumn b in
      record {
        values = λ r. _;
        column = sum_column e l q u.column v.column;
        specified = λ r.
            binary l q (u.specified r) (v.specified r)
              (ap (λ (k : NodeKind). operation k (u.values r) (v.values r)) e);
      }

  -- A predicate marks the rows on which it is specified to be true.
  pub record HasMarks (i : ℕ) : Type 0 where
    pub marked : ℕ → Bool
    pub marks : Marks p field i marked
    pub specified : (r : ℕ) → Value p (field r) i (flag (marked r))

  pub IsPredicate-HasMarks : {i : ℕ} → IsPredicate p i → HasMarks i
  IsPredicate-HasMarks (by_gt e l q a b) =
      let u = IsSum-HasColumn a in
      let v = IsSum-HasColumn b in
      record {
        marked = λ r. ltb (v.values r) (u.values r);
        marks = compared (greater e l q u.column v.column);
        specified = λ r.
            binary l q (u.specified r) (v.specified r)
              (ap (λ (k : NodeKind). operation k (u.values r) (v.values r)) e);
      }
  IsPredicate-HasMarks (by_lt e l q a b) =
      let u = IsSum-HasColumn a in
      let v = IsSum-HasColumn b in
      record {
        marked = λ r. ltb (u.values r) (v.values r);
        marks = compared (less e l q u.column v.column);
        specified = λ r.
            binary l q (u.specified r) (v.specified r)
              (ap (λ (k : NodeKind). operation k (u.values r) (v.values r)) e);
      }
  IsPredicate-HasMarks (by_and e l q a b) =
      let u = IsPredicate-HasMarks a in
      let v = IsPredicate-HasMarks b in
      record {
        marked = λ r. u.marked r && v.marked r;
        marks = both e l q u.marks v.marks;
        specified = λ r. binary l q (u.specified r) (v.specified r) (
            ap (λ (k : NodeKind). operation k (flag (u.marked r)) (flag (v.marked r))) e
            ∙ ap some (bit_and-flag (u.marked r) (v.marked r)));
      }

-- The comparisons that the compiler collects from a root.
pub record HasTests (p : NodePool) (field : ℕ → Name → ℕ) (nodes : List ℕ) (t : ℕ → Bool)
    : Type 0 where
  pub tested : ℕ → Bool
  pub tests : Tests p field nodes tested
  pub same : (r : ℕ) → tested r ≡ t r

one_test : (b : Bool) → (b && true) ≡ b
one_test true = refl
one_test false = refl

module _ (p : NodePool) (n i : ℕ) where
  collect_one :
      is_comparison (node_at p i).kind ≡ true → collect_comparisons (suc n) p (some i) ≡ i ∷ []
  unfolding collect_comparisons
  collect_one e = rw (collect_comparisons, e) refl

  collect_both :
      {a b : ℕ}
      → (node_at p i).kind ≡ and
      → (node_at p i).left ≡ some a
      → (node_at p i).right ≡ some b
      → collect_comparisons (suc n) p (some i)
        ≡ collect_comparisons n p (some a) ++ collect_comparisons n p (some b)
  unfolding collect_comparisons is_comparison is_and
  collect_both e l r = rw (collect_comparisons, e, l, r) refl

Compares-is_comparison :
    {p : NodePool} {field : ℕ → Name → ℕ} {i : ℕ} {x y : ℕ → ℕ}
    → Compares p field i x y
    → is_comparison (node_at p i).kind ≡ true
unfolding is_comparison
Compares-is_comparison (greater e l r u v) = ap is_comparison e
Compares-is_comparison (less e l r u v) = ap is_comparison e

below : {i a : ℕ} {q : Pointer} → q ≡ some a → PointsBelow i q → a < i
below e h = rw e at h

pub collect-HasTests :
    {p : NodePool} {field : ℕ → Name → ℕ} {i : ℕ} {t : ℕ → Bool} (n : ℕ)
    → IsAcyclic p
    → i < n
    → Marks p field i t
    → HasTests p field (collect_comparisons n p (some i)) t
collect-HasTests zero ok h m = absurd (omega (arith, h))
collect-HasTests {p} {i} (suc n) ok h (compared {x} {y} c) =
    rw (collect_one p n i (Compares-is_comparison c)) (record {
      tested = λ r. ltb (y r) (x r) && true;
      tests = more_tests c no_tests;
      same = λ r. one_test (ltb (y r) (x r));
    })
collect-HasTests {p} {i} (suc n) ok h (both {a} {b} {s} {t} e l r ma mb) =
    let links = ok.links i in
    let u = collect-HasTests n ok (omega (arith, h, below l links.left)) ma in
    let v = collect-HasTests n ok (omega (arith, h, below r links.right)) mb in
    let (w, tests, same) = Tests-append u.tests v.tests in
    rw (collect_both p n i e l r) (record {
      tested = w;
      tests = tests;
      same = λ r. same r ∙ ap₂ (λ (x y : Bool). x && y) (u.same r) (v.same r);
    })
