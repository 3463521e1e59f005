-- ===== src/Jit/Expression/Carries.antt =====
-- The carries that `compile_expression` gives to the sums and differences.
use apex_engine.Common.{
  ℕ, zero, suc, ◌+◌, ◌<◌, ◌≤◌, ◌≡◌, ◌≢◌, refl, ◌∙◌, ap, arith, ℤ, pos, true, false, List, [], ◌∷◌,
  some, length, get_elem?, get_or-set_self, get_or-set_ne, leb, Bool-cases, inl, inr,
}
use apex_engine.Ir.{Node, NodePool, node_at, fresh_node}
use apex_engine.Jit.Expression.{is_carried}
use apex_engine.Jit.Expression.Compile.{assign_carries, set_carry_reg}
use apex_engine.Jit.Expression.Writes.{set_carry_reg-SamePart}
use apex_engine.Jit.Expression.Numbers.{Distinct, Distinct-tail, Distinct-head, InPool}

set_carry_reg-other :
    (i j : ℕ) (x : ℤ) (p : NodePool)
    → i ≢ j
    → (node_at (set_carry_reg i x p) j).carry_reg ≡ (node_at p j).carry_reg
unfolding set_carry_reg
set_carry_reg-other i j x p h =
    ap (λ (n : Node). n.carry_reg)
      (get_or-set_ne p.storage i j (record (node_at p i) { carry_reg = x }) fresh_node h)

set_carry_reg_self :
    (i : ℕ) (x : ℤ) (p : NodePool)
    → i < length p.storage
    → (node_at (set_carry_reg i x p) i).carry_reg ≡ x
unfolding set_carry_reg
set_carry_reg_self i x p h =
    ap (λ (n : Node). n.carry_reg)
      (get_or-set_self p.storage i (record (node_at p i) { carry_reg = x }) fresh_node h)

assign_carries-other :
    (rest : List ℕ) (k : ℕ) (p : NodePool) (j : ℕ)
    → ((m : ℕ) → get_elem? rest m ≢ some j)
    → (node_at (assign_carries rest k p).1 j).carry_reg ≡ (node_at p j).carry_reg
unfolding assign_carries
assign_carries-other [] k p j h = refl
assign_carries-other (i ∷ rest) k p j h = elim (Bool-cases (is_carried (node_at p i).kind)) [
  | inr other ↦ rw (assign_carries, other) (assign_carries-other rest k p j (λ m. h (suc m)))
  | inl carried ↦ elim (Bool-cases (leb 8 k)) [
    | inl full ↦ rw (assign_carries, carried, full) refl
    | inr room ↦
        rw (assign_carries, carried, room)
          (assign_carries-other rest (k + 1) (set_carry_reg i (pos k) p) j (λ m. h (suc m))
            ∙ set_carry_reg-other i j (pos k) p (λ e. h 0 (ap some e)))
  ]
]

-- The sums and differences of a list have carries from `k` on, a new one for each.
pub record AreCarried (p q : NodePool) (rest : List ℕ) (k : ℕ) : Type 0 where
  pub number : ℕ → ℕ
  pub carry :
      (m i : ℕ)
      → get_elem? rest m ≡ some i
      → is_carried (node_at p i).kind ≡ true
      → (k ≤ number m) × (number m < 8) × ((node_at q i).carry_reg ≡ pos (number m))
  pub increasing :
      (m n i j : ℕ)
      → m < n
      → get_elem? rest m ≡ some i
      → get_elem? rest n ≡ some j
      → is_carried (node_at p i).kind ≡ true
      → is_carried (node_at p j).kind ≡ true
      → number m < number n

abbrev shifted : ℕ → (ℕ → ℕ) → ℕ → ℕ
shifted k number zero = k
shifted k number (suc m) = number m

-- One node more, in front of a list whose carries start at `next`.
module _ (p q r : NodePool) (j k next : ℕ) (rest : List ℕ)
    (same : (i : ℕ) → (node_at r i).kind ≡ (node_at p i).kind)
    (first : is_carried (node_at p j).kind ≡ true
      → (k < next) × (k < 8) × ((node_at q j).carry_reg ≡ pos k))
    (later : k ≤ next) (c : AreCarried r q rest next) where
  kept_kind : (i : ℕ) → is_carried (node_at p i).kind ≡ true → is_carried (node_at r i).kind ≡ true
  kept_kind i t = ap is_carried (same i) ∙ t

  carry_at :
      (m i : ℕ)
      → get_elem? (j ∷ rest) m ≡ some i
      → is_carried (node_at p i).kind ≡ true
      → (k ≤ shifted k c.number m)
        × (shifted k c.number m < 8)
        × ((node_at q i).carry_reg ≡ pos (shifted k c.number m))
  carry_at zero i g t =
      let here : i ≡ j = cc g in
      let (below, small, reg) = first (rw here at t) in (omega arith, small, rw here reg)
  carry_at (suc m) i g t =
      let (low, small, reg) = c.carry m i g (kept_kind i t) in
      (omega (arith, low, later), small, reg)

  increasing_at :
      (m n i l : ℕ)
      → m < n
      → get_elem? (j ∷ rest) m ≡ some i
      → get_elem? (j ∷ rest) n ≡ some l
      → is_carried (node_at p i).kind ≡ true
      → is_carried (node_at p l).kind ≡ true
      → shifted k c.number m < shifted k c.number n
  increasing_at m zero i l h f g t u = absurd (omega (arith, h))
  increasing_at zero (suc n) i l h f g t u =
      let here : i ≡ j = cc f in
      let below = (first (rw here at t)).0 in
      omega (arith, below, (c.carry n l g (kept_kind l u)).0)
  increasing_at (suc m) (suc n) i l h f g t u =
      c.increasing m n i l (omega (arith, h)) f g (kept_kind i t) (kept_kind l u)

  in_front : AreCarried p q (j ∷ rest) k
  in_front = record { number = shifted k c.number; carry = carry_at; increasing = increasing_at }

pub assign_carries-AreCarried :
    (k : ℕ) (rest : List ℕ) (p : NodePool)
    → k + length rest ≤ 8
    → InPool p rest
    → Distinct rest
    → AreCarried p (assign_carries rest k p).1 rest k
unfolding assign_carries
assign_carries-AreCarried k [] p h inside d = record {
  number = λ m. m;
  carry = λ m i g t. absurd (cc g);
  increasing = λ m n i j h f g t u. absurd (cc g);
}
assign_carries-AreCarried k (j ∷ rest) p h inside d =
    elim (Bool-cases (is_carried (node_at p j).kind)) [
      | inr other ↦
          let ih =
            assign_carries-AreCarried k rest p (omega (arith, h)) (λ m i g. inside (suc m) i g)
              (Distinct-tail j rest d) in
          rw (assign_carries, other)
            (in_front p _ p j k k rest (λ i. refl) (λ carried. absurd (cc (carried, other)))
              (omega arith) ih)
      | inl carried ↦
          let r = set_carry_reg j (pos k) p in
          let room : leb 8 k ≡ false = ground (arith, h) in
          let kinds = set_carry_reg-SamePart (λ (n : Node). n.kind) (λ n x. refl) j (pos k) p in
          let size = kinds.size in
          let ih =
            assign_carries-AreCarried (k + 1) rest r (omega (arith, h))
              (λ m i g. omega (arith, size, inside (suc m) i g)) (Distinct-tail j rest d) in
          let reg =
            assign_carries-other rest (k + 1) r j (Distinct-head j rest d)
            ∙ set_carry_reg_self j (pos k) p (inside 0 j refl) in
          rw (assign_carries, carried, room)
            (in_front p _ r j k (k + 1) rest kinds.parts (λ t. (omega arith, omega (arith, h), reg))
              (omega arith) ih)
    ]
