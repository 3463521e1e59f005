-- ===== src/Jit/Expression/Numbers.antt =====
-- The slots that `compile_expression` gives to the nodes of its arithmetic.
use apex_engine.Common.{
  ℕ, zero, suc, ◌+◌, ◌-◌, ◌<◌, ◌≤◌, ◌≡◌, ◌≢◌, refl, sym, ◌∙◌, ap, arith, ℤ, pos, true, false, List,
  [], ◌∷◌, ◌++◌, some, length, get_elem?, get_or-set_self, get_or-set_ne, replicate, Bool-cases,
  inl, inr,
}
use apex_engine.Ir.{Node, NodePool, node_at, fresh_node}
use apex_engine.Jit.Scratchpad.{ScratchpadManager, alloc_slot, alloc_from}
use apex_engine.Jit.Expression.{is_slot}
use apex_engine.Jit.Expression.Compile.{assign_slots, set_slot_id}
use apex_engine.Jit.Expression.Writes.{set_slot_id-SamePart}

-- A list without repetitions.
abbrev pub Distinct : List ℕ → Type 0
Distinct xs = (m n i : ℕ) → get_elem? xs m ≡ some i → get_elem? xs n ≡ some i → m ≡ n

abbrev pub InPool : NodePool → List ℕ → Type 0
InPool p xs = (m i : ℕ) → get_elem? xs m ≡ some i → i < length p.storage

pub Distinct-tail : (x : ℕ) (xs : List ℕ) → Distinct (x ∷ xs) → Distinct xs
Distinct-tail x xs d m n i f g = omega (arith, d (suc m) (suc n) i f g)

pub Distinct-head : (x : ℕ) (xs : List ℕ) → Distinct (x ∷ xs) → (m : ℕ) → get_elem? xs m ≢ some x
Distinct-head x xs d m f = omega (arith, d (suc m) 0 x f refl)

-- The first `n` slots are in use.
abbrev taken : ℕ → ScratchpadManager
taken n = replicate n true ++ replicate (8 - n) false

alloc_taken : (n : ℕ) → n < 8 → alloc_slot (taken n) ≡ (pos n, taken (n + 1))
unfolding alloc_slot alloc_from
alloc_taken zero h = refl
alloc_taken (suc zero) h = refl
alloc_taken (suc (suc zero)) h = refl
alloc_taken (suc (suc (suc zero))) h = refl
alloc_taken (suc (suc (suc (suc zero)))) h = refl
alloc_taken (suc (suc (suc (suc (suc zero))))) h = refl
alloc_taken (suc (suc (suc (suc (suc (suc zero)))))) h = refl
alloc_taken (suc (suc (suc (suc (suc (suc (suc zero))))))) h = refl
alloc_taken (suc (suc (suc (suc (suc (suc (suc (suc n)))))))) h = absurd (omega (arith, h))

set_slot_id-other :
    (i j : ℕ) (x : ℤ) (p : NodePool)
    → i ≢ j
    → (node_at (set_slot_id i x p) j).slot_id ≡ (node_at p j).slot_id
unfolding set_slot_id
set_slot_id-other i j x p h =
    ap (λ (n : Node). n.slot_id)
      (get_or-set_ne p.storage i j (record (node_at p i) { slot_id = x }) fresh_node h)

set_slot_id_self :
    (i : ℕ) (x : ℤ) (p : NodePool)
    → i < length p.storage
    → (node_at (set_slot_id i x p) i).slot_id ≡ x
unfolding set_slot_id
set_slot_id_self i x p h =
    ap (λ (n : Node). n.slot_id)
      (get_or-set_self p.storage i (record (node_at p i) { slot_id = x }) fresh_node h)

-- A node that is not listed keeps its slot.
assign_slots-other :
    (rest : List ℕ) (used : ScratchpadManager) (p : NodePool) (j : ℕ)
    → ((m : ℕ) → get_elem? rest m ≢ some j)
    → (node_at (assign_slots rest used p).1 j).slot_id ≡ (node_at p j).slot_id
unfolding assign_slots
assign_slots-other [] used p j h = refl
assign_slots-other (i ∷ rest) used p j h =
    let given = alloc_slot used in
    let q = set_slot_id i given.0 p in
    let one = set_slot_id-other i j given.0 p (λ e. h 0 (ap some e)) in
    elim (Bool-cases (is_slot given.0)) [
      | inl slot ↦
          rw (assign_slots, slot) (assign_slots-other rest given.1 q j (λ m. h (suc m)) ∙ one)
      | inr full ↦ rw (assign_slots, full) one
    ]

-- With `n` slots in use, the nodes get those behind them, in order.
pub assign_slots-order :
    (n : ℕ) (rest : List ℕ) (p : NodePool)
    → n + length rest ≤ 8
    → InPool p rest
    → Distinct rest
    → (m i : ℕ) → get_elem? rest m ≡ some i
    → (node_at (assign_slots rest (taken n) p).1 i).slot_id ≡ pos (n + m)
unfolding assign_slots is_slot
assign_slots-order n [] p h inside d m i g = absurd (cc g)
assign_slots-order n (j ∷ rest) p h inside d zero i g =
    let same : j ≡ i = cc g in
    let q = set_slot_id j (pos n) p in
    let first = set_slot_id_self j (pos n) p (inside 0 j refl) in
    let kept = assign_slots-other rest (taken (n + 1)) q j (Distinct-head j rest d) in
    let at : pos n ≡ pos (n + 0) = ap pos (omega arith) in
    rw (sym same, alloc_taken n (omega (arith, h))) (kept ∙ first ∙ at)
assign_slots-order n (j ∷ rest) p h inside d (suc m) i g =
    let q = set_slot_id j (pos n) p in
    let size = (set_slot_id-SamePart (λ (n : Node). n.kind) (λ n x. refl) j (pos n) p).size in
    let at : pos (n + 1 + m) ≡ pos (n + suc m) = ap pos (omega arith) in
    rw (alloc_taken n (omega (arith, h))) (
      assign_slots-order (n + 1) rest q (omega (arith, h))
        (λ l k f. omega (arith, size, inside (suc l) k f)) (Distinct-tail j rest d) m i g
      ∙ at)
