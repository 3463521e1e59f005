-- ===== src/Jit/Scalar/Whole.antt =====
-- The nodes of one row together, and the mask.
use Prim.Native.Nat.{bit_or}
use mathlib.Core.List.{append_assoc}
use apex_engine.Common.{
  ℕ, zero, suc, ◌+◌, ◌-◌, ◌*◌, ◌%◌, ◌<◌, ◌≤◌, ◌≡◌, refl, sym, ◌∙◌, ap, ap₂, arith, List, [], ◌∷◌,
  ◌++◌, some, length, get_elem?, ◌==◌, Name, ℕ_discrete, ltb, leb, ◌&&◌, ◌||◌,
}
use apex_engine.Word.{two64, shl64, test_bit}
use apex_engine.Word.Bitwise.{test_bit-zero, test_bit-bit_or}
use apex_engine.Word.Shift.{test_bit-shl64}
use apex_engine.Arm64.{Cpu}
use apex_engine.Arm64.Flow.{execs, execs-append}
use apex_engine.Ir.{NodePool, node_at, load}
use apex_engine.Jit.Scalar.{node_code, nodes_code}
use apex_engine.Jit.Scalar.Value.{Value}
use apex_engine.Jit.Scalar.Row.{Call, FieldAt, State, Evaluated}
use apex_engine.Jit.Scalar.Steps.{Keeps, Keeps-trans, node_State, get_elem?-append_left}

-- The operands of each node are null or stand before it.
abbrev pub Ordered : NodePool → (before rest : List ℕ) → Type 0
Ordered p before [] = 0 ≤ 0
Ordered p before (i ∷ rest) =
    Evaluated before (node_at p i).left
    × Evaluated before (node_at p i).right
    × Ordered p (before ++ i ∷ []) rest

abbrev pub last_of : ℕ → List ℕ → ℕ
last_of i [] = i
last_of i (j ∷ rest) = last_of j rest

pub length-snoc : (xs : List ℕ) (i : ℕ) → length (xs ++ i ∷ []) ≡ length xs + 1
length-snoc [] i = refl
length-snoc (x ∷ xs) i = omega (arith, length-snoc xs i)

-- All nodes' code: the last node's value comes to stand in x5.
pub nodes_State :
    {p : NodePool} {call : Call} {r : ℕ} {field : Name → ℕ}
    → call.s + 8 * call.size ≤ two64
    → (before : List ℕ) (i : ℕ) (rest all : List ℕ) (c : Cpu)
    → length before + suc (length rest) ≤ call.size
    → all ≡ before ++ i ∷ rest
    → Ordered p before (i ∷ rest)
    → ((k j : ℕ) → get_elem? all k ≡ some j → (node_at p j).kind ≡ load → FieldAt p call r field j)
    → State p call r field before c
    → let d = execs (nodes_code p before (i ∷ rest)) c in
      State p call r field all d
      × Keeps c d
      × ((v : ℕ) → Value p field (last_of i rest) v → d.reg 5 ≡ v)
unfolding nodes_code execs
nodes_State {p} {call} {r} {field} room before i [] all c h e ordered fields st =
    let (s, k, v) =
      node_State room before i c (omega arith) ordered.0 ordered.1 (λ k j g. fields k j (rw e g))
        st in
    rw (execs-append (node_code p before i) [] c) (rw e s, k, v)
nodes_State {p} {call} {r} {field} room before i (j ∷ rest) all c h e ordered fields st =
    let c1 = execs (node_code p before i) c in
    let e' : all ≡ (before ++ i ∷ []) ++ j ∷ rest =
      e ∙ sym (append_assoc before (i ∷ []) (j ∷ rest)) in
    let (s, k, v) =
      node_State room before i c (omega arith) ordered.0 ordered.1
        (λ k n g. fields k n (rw e' (get_elem?-append_left (before ++ i ∷ []) (j ∷ rest) k n g)))
        st in
    let (s', k', v') =
      nodes_State room (before ++ i ∷ []) j rest all c1 (omega (arith, length-snoc before i)) e'
        (ordered.2) fields s in
    rw (execs-append (node_code p before i) (nodes_code p (before ++ i ∷ []) (j ∷ rest)) c)
      (s', Keeps-trans k k', v')

flag_bit : (v n : ℕ) → v ≤ 1 → test_bit v n ≡ (v == 1 && n == 0)
unfolding test_bit
flag_bit zero n h = test_bit-zero n
flag_bit (suc zero) zero h = refl
flag_bit (suc zero) (suc n) h = test_bit-zero n ∙ ground arith
flag_bit (suc (suc v)) n h = absurd (omega arith)

-- The mask, with row `r` entered.
pub mask_next :
    (m v : ℕ) (flags : ℕ → ℕ) (r k : ℕ)
    → k < 64
    → r < 64
    → v ≤ 1
    → flags r ≡ v
    → test_bit m k ≡ (ltb k r && flags k == 1)
    → test_bit (bit_or m (shl64 v (r % 64))) k ≡ (ltb k (r + 1) && flags k == 1)
mask_next m v flags r k hk hr hv same old =
    let at : r % 64 ≡ r = omega arith in
    let bit : test_bit (shl64 v r) k ≡ (leb r k && (v == 1 && k - r == 0)) =
      ground (arith, test_bit-shl64 v r k, flag_bit v (k - r) hv) in
    ap (λ (t : ℕ). test_bit (bit_or m (shl64 v t)) k) at
    ∙ test_bit-bit_or m (shl64 v r) k
    ∙ ap₂ ◌||◌ old bit
    ∙ (elim (ℕ_discrete k r) [
      | yes here ↦ let e : flags k ≡ v = ap flags here ∙ same in ground (arith, e, here)
      | no there ↦ ground (arith, there)
    ])
