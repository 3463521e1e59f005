-- ===== src/Jit/Expression/Bits.antt =====
-- The body of the kernel's first loop: all of the arithmetic at one bit.
use apex_engine.Common.{
  ℕ, suc, ◌+◌, ◌<◌, ◌≡◌, refl, ◌∙◌, ap, arith, Bool, true, false, List, [], ◌∷◌, ◌++◌, some, Name,
  pos, length, get_elem?, Bool-cases, inl, inr, ℕ_discrete, ◌⊎◌,
}
use apex_engine.Word.{add64}
use apex_engine.Arm64.{Cpu, Instr, exec, add_imm, put}
use apex_engine.Arm64.Flow.{execs, execs-append}
use apex_engine.Ir.{NodePool, NodeKind, node_at, add, sub}
use apex_engine.Jit.Scalar.Row.{Call}
use apex_engine.Jit.Scalar.Nodes.{get_elem?-lt}
use apex_engine.Jit.Expression.{
  is_carried, carry_register, full_adder, full_subtractor, store_slot, get_bit, arithmetic_switch,
  arithmetic_code, arithmetics_code,
}
use apex_engine.Jit.Expression.Steps.{
  level, Sums, Sums-carried, AreNumbered, AtNode, operands-Ready,
}
use apex_engine.Jit.Expression.Sums.{IsCarry}
use apex_engine.Jit.Expression.Summed.{add-Summed, sub-Summed}
use apex_engine.Jit.Expression.Nodes.{store-Kept, carried-AtNode, carry_register-pos}

-- A node that is not carried is passed over.
skipped :
    {p : NodePool} {field : ℕ → Name → ℕ} {call : Call} {nodes : List ℕ} {sp b n i : ℕ} {c : Cpu}
    → get_elem? nodes n ≡ some i
    → is_carried (node_at p i).kind ≡ false
    → AtNode p field call nodes sp b n c
    → AtNode p field call nodes sp b (suc n) c
skipped {p} {field} {call} {nodes} {b} {n} {i} g other at = record {
  at = record {
    arrays = at.at.arrays;
    scratch = at.at.scratch;
    bit = at.at.bit;
    kept = at.at.kept;
    stored = λ m j k v f t below h w. elim (ℕ_discrete m n) [
      | yes here ↦ let same : j ≡ i = cc (f, g, here) in cc (same, t, other)
      | no there ↦ at.at.stored m j k v f t (ground (arith, below, there)) h w
    ];
  };
  carries = λ m j start x y f s. elim (ℕ_discrete m n) [
    | yes here ↦
        let same : j ≡ i = cc (f, g, here) in
        let carried = Sums-carried s in cc (same, carried, other)
    | no there ↦
        let e : level (suc n) b m ≡ level n b m = ground (arith, there) in
        rw e (at.carries m j start x y f s)
  ];
  same_sp = at.same_sp;
}

pub carried_cases : (kind : NodeKind) → is_carried kind ≡ true → (kind ≡ add) ⊎ (kind ≡ sub)
unfolding is_carried
carried_cases add h = inl refl
carried_cases sub h = inr refl
carried_cases kind h = absurd (cc h)

execs_four :
    (l r a s : List Instr) (c : Cpu)
    → execs (l ++ (r ++ (a ++ s))) c ≡ execs s (execs a (execs r (execs l c)))
execs_four l r a s c =
    execs-append l (r ++ (a ++ s)) c
    ∙ execs-append r (a ++ s) (execs l c)
    ∙ execs-append a s (execs r (execs l c))

module _ {constants : List (ℕ × ℕ)} {p : NodePool} {field : ℕ → Name → ℕ} {call : Call}
    {nodes : List ℕ} (input : AreNumbered constants p field call nodes) {sp b : ℕ}
    (in_word : b < 64) where
  carried_step :
      {n i : ℕ} {c : Cpu}
      → get_elem? nodes n ≡ some i
      → is_carried (node_at p i).kind ≡ true
      → AtNode p field call nodes sp b n c
      → AtNode p field call nodes sp b (suc n) (execs (arithmetic_code constants p i) c)
  unfolding arithmetic_code arithmetic_switch is_carried
  carried_step {n} {i} {c} g carried at =
      let node = input.numbered n i g carried in
      let (k, small, reg) = node.carry in
      let id = node.slot in
      let left = get_bit constants 2 p (node_at p i).left in
      let right = get_bit constants 3 p (node_at p i).right in
      let c2 = execs right (execs left c) in
      let ready =
        operands-Ready (input.room) (input.slots) in_word (λ m h. ground (arith, h)) i c at.at
          (node.left) (node.right) in
      let register : carry_register (node_at p i).carry_reg ≡ 21 + k =
        ap carry_register reg ∙ carry_register-pos k in
      let into : (start : ℕ → Bool) (x y : ℕ → ℕ)
          → Sums p field i start x y
          → IsCarry start x y b (c2.reg (21 + k)) =
        λ start x y s.
          let old = at.carries n i start x y g s in
          let here : level n b n ≡ b = ground arith in
          let old' = rw (register, here) at old in
          let same : c2.reg (21 + k) ≡ c.reg (21 + k) =
            ready.others (21 + k) (omega arith) (omega arith) (omega arith) (omega arith) in
          rw same old' in
      elim (carried_cases (node_at p i).kind carried) [
        | inl e ↦
            let d = execs (full_adder (21 + k)) c2 in
            let code : execs (arithmetic_code constants p i) c ≡ execs (store_slot (pos n)) d =
              rw (arithmetic_code, e, register, id)
                (execs_four left right (full_adder (21 + k)) (store_slot (pos n)) c) in
            rw code (
              carried-AtNode input in_word g carried k small reg at ready
                (add-Summed (input.words) in_word small ready into e) (store-Kept n d))
        | inr e ↦
            let d = execs (full_subtractor (21 + k)) c2 in
            let code : execs (arithmetic_code constants p i) c ≡ execs (store_slot (pos n)) d =
              rw (arithmetic_code, e, register, id)
                (execs_four left right (full_subtractor (21 + k)) (store_slot (pos n)) c) in
            rw code (
              carried-AtNode input in_word g carried k small reg at ready
                (sub-Summed (input.words) in_word small ready into e) (store-Kept n d))
      ]

  node_step :
      {n i : ℕ} {c : Cpu}
      → get_elem? nodes n ≡ some i
      → AtNode p field call nodes sp b n c
      → AtNode p field call nodes sp b (suc n) (execs (arithmetic_code constants p i) c)
  unfolding arithmetic_code execs
  node_step {i} g at = elim (Bool-cases (is_carried (node_at p i).kind)) [
    | inl carried ↦ carried_step g carried at
    | inr other ↦ rw (arithmetic_code, other) (skipped g other at)
  ]

  nodes_step :
      (n : ℕ) (rest : List ℕ) (c : Cpu)
      → ((m : ℕ) → get_elem? nodes (n + m) ≡ get_elem? rest m)
      → AtNode p field call nodes sp b n c
      → AtNode p field call nodes sp b
          (n + length rest)
          (execs (arithmetics_code constants p rest) c)
  unfolding arithmetics_code execs
  nodes_step n [] c same at = let e : n + 0 ≡ n = omega arith in rw e at
  nodes_step n (i ∷ rest) c same at =
      let first : get_elem? nodes n ≡ some i =
        ap (get_elem? nodes) {x = n} {y = n + 0} (omega arith) ∙ same 0 in
      let e : n + suc (length rest) ≡ suc n + length rest = omega arith in
      rw (e, execs-append (arithmetic_code constants p i) (arithmetics_code constants p rest) c)
        (nodes_step (suc n) rest (execs (arithmetic_code constants p i) c)
          (λ m. ap (get_elem? nodes) {x = suc n + m} {y = n + suc m} (omega arith) ∙ same (suc m))
          (node_step first at))

  -- All nodes, and the next bit.
  pub bit_step :
      (c : Cpu)
      → AtNode p field call nodes sp b 0 c
      → AtNode p field call nodes sp
          (b + 1)
          0
          (execs (add_imm 15 15 1 ∷ []) (execs (arithmetics_code constants p nodes) c))
  unfolding execs exec
  bit_step c at =
      let d = execs (arithmetics_code constants p nodes) c in
      let zero_add = λ (m : ℕ). ap (get_elem? nodes) {x = 0 + m} {y = m} (omega arith) in
      let all : AtNode p field call nodes sp b (0 + length nodes) d =
        nodes_step 0 nodes c zero_add at in
      record {
        at = record {
          arrays = all.at.arrays;
          scratch = all.at.scratch;
          bit = unfold add64 in omega (arith, all.at.bit, in_word);
          kept = all.at.kept;
          stored = λ m j k v f t below h w.
              all.at.stored m j k v f t (ground (arith, below, get_elem?-lt nodes m j f)) h w;
        };
        carries = λ m j start x y f s.
            let e : level 0 (b + 1) m ≡ level (0 + length nodes) b m =
              ground (arith, get_elem?-lt nodes m j f) in
            let z = carry_register (node_at p j).carry_reg in
            let (k, small, reg) = (input.numbered m j f (Sums-carried s)).carry in
            let high : z ≡ 21 + k = ap carry_register reg ∙ carry_register-pos k in
            let value : put d.reg 15 (add64 (d.reg 15) 1) z ≡ d.reg z = ground (arith, high) in
            rw (e, value) (all.carries m j start x y f s);
        same_sp = all.same_sp;
      }
