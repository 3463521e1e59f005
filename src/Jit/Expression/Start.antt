-- ===== src/Jit/Expression/Start.antt =====
-- The carries at the start of the kernel's first loop.
use apex_engine.Common.{
  ℕ, zero, suc, ◌+◌, ◌<◌, ◌≡◌, ◌≢◌, refl, sym, ◌∙◌, ap, arith, Bool, true, false, List, [], ◌∷◌,
  some, Name, pos, negsuc, ℤ, length, get_elem?, Bool-cases, inl, inr, ◌==◌, ℕ_discrete,
}
use apex_engine.Word.{test_bit}
use apex_engine.Word.Bitwise.{test_bit-zero}
use apex_engine.Word.Carry.{carry}
use apex_engine.Arm64.{Cpu, exec, mov_imm, put}
use apex_engine.Arm64.Flow.{execs, execs-append}
use apex_engine.Ir.{NodePool, NodeKind, node_at, add, sub}
use apex_engine.Jit.Scalar.Row.{Call}
use apex_engine.Jit.Scalar.Nodes.{get_elem?-lt}
use apex_engine.Jit.Expression.{is_carried, carry_register, carry_start, carries_start}
use apex_engine.Jit.Expression.Sums.{IsCarry, no_carry, one_carry}
use apex_engine.Jit.Expression.Steps.{
  level, Sums, adds, subtracts, Sums-carried, AreNumbered, AtNode,
}
use apex_engine.Jit.Expression.Nodes.{carry_register-pos}
use apex_engine.Jit.Expression.Bits.{carried_cases}

-- The first `n` carries are set.
record Started (p : NodePool) (field : ℕ → Name → ℕ) (nodes : List ℕ) (n : ℕ) (c d : Cpu)
    : Type 0 where
  set :
      (m i : ℕ) (start : ℕ → Bool) (x y : ℕ → ℕ)
      → m < n
      → get_elem? nodes m ≡ some i
      → Sums p field i start x y
      → IsCarry start x y 0 (d.reg (carry_register (node_at p i).carry_reg))
  others : (z : ℕ) → z < 21 → d.reg z ≡ c.reg z
  same_mem : d.mem ≡ c.mem
  same_sp : d.sp ≡ c.sp

-- The register of one carry is set, and no other.
record Sets (k v : ℕ) (c d : Cpu) : Type 0 where
  value : d.reg (21 + k) ≡ v
  others : (z : ℕ) → z ≢ 21 + k → d.reg z ≡ c.reg z
  same_mem : d.mem ≡ c.mem
  same_sp : d.sp ≡ c.sp

mov-Sets : (k v : ℕ) (c : Cpu) → Sets k v c (execs (mov_imm (21 + k) v ∷ []) c)
unfolding execs exec
mov-Sets k v c = record {
  value = ground arith;
  others = λ z h. ground arith;
  same_mem = refl;
  same_sp = refl;
}

zero_carry : {x y : ℕ → ℕ} → IsCarry no_carry x y 0 0
unfolding carry
zero_carry = record { carries = λ r h. test_bit-zero r }

one_bit : (r : ℕ) → test_bit 1 r ≡ (r == 0)
unfolding test_bit
one_bit zero = refl
one_bit (suc r) = test_bit-zero r ∙ ground arith

unit_carry : {x y : ℕ → ℕ} → IsCarry one_carry x y 0 1
unfolding carry
unit_carry = record { carries = λ r h. one_bit r }

module _ {p : NodePool} {field : ℕ → Name → ℕ} {i : ℕ} where
  add_first :
      {start : ℕ → Bool} {x y : ℕ → ℕ}
      → (node_at p i).kind ≡ add
      → Sums p field i start x y
      → IsCarry start x y 0 0
  add_first e (adds f l r u v) = zero_carry
  add_first e (subtracts f l r u v) = cc

  sub_first :
      {start : ℕ → Bool} {x y : ℕ → ℕ}
      → (node_at p i).kind ≡ sub
      → Sums p field i start x y
      → IsCarry start x y 0 1
  sub_first e (adds f l r u v) = cc
  sub_first e (subtracts f l r u v) = unit_carry

-- Other nodes have no carry.
no_start :
    (p : NodePool) (kind : NodeKind) (z : ℤ) → is_carried kind ≡ false → carry_start p kind z ≡ []
unfolding carry_start is_carried
no_start p kind (negsuc k) h = refl
no_start p add (pos k) h = absurd (cc h)
no_start p sub (pos k) h = absurd (cc h)
no_start p kind (pos k) h = refl

module _ {constants : List (ℕ × ℕ)} {p : NodePool} {field : ℕ → Name → ℕ} {call : Call}
    {nodes : List ℕ} (input : AreNumbered constants p field call nodes) where
  set_step :
      {n i : ℕ} (k v : ℕ) {c d e : Cpu}
      → get_elem? nodes n ≡ some i
      → is_carried (node_at p i).kind ≡ true
      → (node_at p i).carry_reg ≡ pos k
      → ((start : ℕ → Bool) (x y : ℕ → ℕ) → Sums p field i start x y → IsCarry start x y 0 v)
      → Started p field nodes n c d
      → Sets k v d e
      → Started p field nodes (suc n) c e
  set_step {n} {i} k v {c} {d} {e} g carried reg first st w = record {
    set = λ m j start x y below f s. elim (ℕ_discrete m n) [
      | yes here ↦
          let same : j ≡ i = cc (f, g, here) in
          let register : carry_register (node_at p j).carry_reg ≡ 21 + k =
            ap (λ (m : ℕ). carry_register (node_at p m).carry_reg) same
            ∙ ap carry_register reg
            ∙ carry_register-pos k in
          rw (register, w.value) (first start x y (rw same at s))
      | no other ↦
          let z = carry_register (node_at p j).carry_reg in
          let taken : carry_register (node_at p i).carry_reg ≡ 21 + k =
            ap carry_register reg ∙ carry_register-pos k in
          let apart : z ≢ 21 + k =
            λ same. input.apart m n j i other f g (Sums-carried s) carried (same ∙ sym taken) in
          rw (w.others z apart) (st.set m j start x y (omega (arith, below, other)) f s)
    ];
    others = λ z h. w.others z (omega (arith, h)) ∙ st.others z h;
    same_mem = w.same_mem ∙ st.same_mem;
    same_sp = w.same_sp ∙ st.same_sp;
  }

  carry_step :
      {n i : ℕ} {c d : Cpu}
      → get_elem? nodes n ≡ some i
      → is_carried (node_at p i).kind ≡ true
      → Started p field nodes n c d
      → Started p field nodes
          (suc n)
          c
          (execs (carry_start p (node_at p i).kind (node_at p i).carry_reg) d)
  unfolding carry_start
  carry_step {n} {i} {c} {d} g carried st =
      let (k, small, reg) = (input.numbered n i g carried).carry in
      elim (carried_cases (node_at p i).kind carried) [
        | inl e ↦
            rw (e, reg)
              (set_step k 0 g carried reg (λ start x y s. add_first e s) st (mov-Sets k 0 d))
        | inr e ↦
            rw (e, reg)
              (set_step k 1 g carried reg (λ start x y s. sub_first e s) st (mov-Sets k 1 d))
      ]

  node_start :
      {n i : ℕ} {c d : Cpu}
      → get_elem? nodes n ≡ some i
      → Started p field nodes n c d
      → Started p field nodes
          (suc n)
          c
          (execs (carry_start p (node_at p i).kind (node_at p i).carry_reg) d)
  unfolding execs
  node_start {n} {i} g st = elim (Bool-cases (is_carried (node_at p i).kind)) [
    | inl carried ↦ carry_step g carried st
    | inr other ↦ rw (no_start p (node_at p i).kind (node_at p i).carry_reg other) (record {
      set = λ m j start x y below f s. elim (ℕ_discrete m n) [
        | yes here ↦
            let same : j ≡ i = cc (f, g, here) in
            let carried = Sums-carried s in cc (same, carried, other)
        | no there ↦ st.set m j start x y (omega (arith, below, there)) f s
      ];
      others = st.others;
      same_mem = st.same_mem;
      same_sp = st.same_sp;
    })
  ]

  nodes_start :
      (n : ℕ) (rest : List ℕ) (c d : Cpu)
      → ((m : ℕ) → get_elem? nodes (n + m) ≡ get_elem? rest m)
      → Started p field nodes n c d
      → Started p field nodes (n + length rest) c (execs (carries_start p rest) d)
  unfolding carries_start execs
  nodes_start n [] c d same st = let e : n + 0 ≡ n = omega arith in rw e st
  nodes_start n (i ∷ rest) c d same st =
      let first : get_elem? nodes n ≡ some i =
        ap (get_elem? nodes) {x = n} {y = n + 0} (omega arith) ∙ same 0 in
      let e : n + suc (length rest) ≡ suc n + length rest = omega arith in
      let one = carry_start p (node_at p i).kind (node_at p i).carry_reg in
      rw (e, execs-append one (carries_start p rest) d)
        (nodes_start (suc n) rest c (execs one d)
          (λ m. ap (get_elem? nodes) {x = suc n + m} {y = n + suc m} (omega arith) ∙ same (suc m))
          (node_start first st))

  -- Behind the prologue, the carries and the bit are set.
  pub carries-AtNode :
      {sp : ℕ} (c : Cpu)
      → c.reg 19 ≡ call.fa
      → c.reg 20 ≡ call.s
      → c.sp ≡ sp
      → c.mem ≡ call.memory
      → AtNode p field call nodes sp 0 0
          (execs (mov_imm 15 0 ∷ []) (execs (carries_start p nodes) c))
  unfolding execs exec
  carries-AtNode c arrays scratch same_sp mem =
      let none_set : Started p field nodes 0 c c = record {
        set = λ m j start x y below f s. absurd (omega (arith, below));
        others = λ z h. refl;
        same_mem = refl;
        same_sp = refl;
      } in
      let d = execs (carries_start p nodes) c in
      let zero_add = λ (m : ℕ). ap (get_elem? nodes) {x = 0 + m} {y = m} (omega arith) in
      let st : Started p field nodes (0 + length nodes) c d =
        nodes_start 0 nodes c c zero_add none_set in
      record {
        at = record {
          arrays = st.others 19 (omega arith) ∙ arrays;
          scratch = st.others 20 (omega arith) ∙ scratch;
          bit = refl;
          kept = λ a u. ap (λ (m : ℕ → ℕ). m a) (st.same_mem ∙ mem);
          stored = λ m j k v f t below h w. absurd (ground (arith, below));
        };
        carries = λ m j start x y f s.
            let z = carry_register (node_at p j).carry_reg in
            let (k, small, reg) = (input.numbered m j f (Sums-carried s)).carry in
            let high : z ≡ 21 + k = ap carry_register reg ∙ carry_register-pos k in
            let value : put d.reg 15 0 z ≡ d.reg z = ground (arith, high) in
            let start_level : level 0 0 m ≡ 0 = ground arith in
            rw (start_level, value)
              (st.set m j start x y (omega (arith, get_elem?-lt nodes m j f)) f s);
        same_sp = st.same_sp ∙ same_sp;
      }
