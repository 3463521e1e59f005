-- ===== src/Jit/Expression/Nodes.antt =====
-- One node of the kernel's arithmetic, at one bit: the adder is followed by the store.
use apex_engine.Common.{
  ℕ, suc, ◌+◌, ◌*◌, ◌<◌, ◌≤◌, ◌≡◌, ◌≢◌, refl, sym, ◌∙◌, ap, arith, Bool, true, List, some, Name,
  pos, get_elem?, ℕ_discrete,
}
use apex_engine.Word.{add64, shl64}
use apex_engine.Word.Compare.{IsPlane}
use apex_engine.Arm64.{Cpu, exec, put}
use apex_engine.Arm64.Flow.{execs}
use apex_engine.Ir.{NodePool, node_at}
use apex_engine.Jit.Scalar.Row.{Call, Untouched}
use apex_engine.Jit.Scalar.Nodes.{get_elem?-lt}
use apex_engine.Jit.Expression.{is_carried, carry_register, store_slot, slot_offset}
use apex_engine.Jit.Expression.Columns.{Column}
use apex_engine.Jit.Expression.Sums.{IsCarry}
use apex_engine.Jit.Expression.Steps.{level, Sums, Sums-carried, AreNumbered, AtNode, Ready}
use apex_engine.Jit.Expression.Summed.{Summed}

-- What the store of a slot's plane does.
pub record Kept (n : ℕ) (c d : Cpu) : Type 0 where
  stored : d.mem ≡ put c.mem (add64 (c.reg 20) (add64 (shl64 (c.reg 15) 3) (512 * n))) (c.reg 5)
  others : (z : ℕ) → z ≢ 14 → d.reg z ≡ c.reg z
  same_sp : d.sp ≡ c.sp

pub store-Kept : (n : ℕ) (c : Cpu) → Kept n c (execs (store_slot (pos n)) c)
unfolding store_slot slot_offset execs exec
store-Kept n c = record { stored = refl; others = λ z h. ground arith; same_sp = refl }

pub carry_register-pos : (k : ℕ) → carry_register (pos k) ≡ 21 + k
unfolding carry_register
carry_register-pos k = refl

put_self : (f : ℕ → ℕ) (r v : ℕ) → put f r v r ≡ v
put_self f r v = ground arith

put_other : (f : ℕ → ℕ) (r v x : ℕ) → x ≢ r → put f r v x ≡ f x
put_other f r v x h = ground arith

module _ {constants : List (ℕ × ℕ)} {p : NodePool} {field : ℕ → Name → ℕ} {call : Call}
    {nodes : List ℕ} (input : AreNumbered constants p field call nodes) {sp b n i : ℕ}
    (in_word : b < 64) (g : get_elem? nodes n ≡ some i) where
  module _ (carried : is_carried (node_at p i).kind ≡ true) (k : ℕ) (small : k < 8)
      (reg : (node_at p i).carry_reg ≡ pos k) {c c2 d e : Cpu}
      (at : AtNode p field call nodes sp b n c) (ready : Ready p field b i c c2)
      (summed : Summed p field b i k c2 d) (store : Kept n d e) where
    same_reg :
        (z : ℕ)
        → z ≢ 2
        → z ≢ 3
        → z ≢ 4
        → z ≢ 5
        → z ≢ 6
        → z ≢ 7
        → z ≢ 14
        → z ≢ 21 + k
        → e.reg z ≡ c.reg z
    same_reg z h2 h3 h4 h5 h6 h7 h14 hk =
        store.others z h14 ∙ summed.adder.others z h5 h6 h7 h14 hk ∙ ready.others z h2 h3 h4 h14

    special : (z : ℕ) → 15 ≤ z → z < 21 → e.reg z ≡ c.reg z
    special z low high =
        same_reg z (omega arith) (omega arith) (omega arith) (omega arith) (omega arith)
          (omega arith) (omega arith) (omega arith)

    mem_after : e.mem ≡ put c.mem (call.s + 512 * n + 8 * b) (d.reg 5)
    mem_after =
        let before : d.mem ≡ c.mem = summed.adder.same_mem ∙ ready.same_mem in
        let scratch : d.reg 20 ≡ call.s =
          sym (store.others 20 (omega arith))
          ∙ special 20 (omega arith) (omega arith)
          ∙ at.at.scratch in
        let bit : d.reg 15 ≡ b =
          sym (store.others 15 (omega arith))
          ∙ special 15 (omega arith) (omega arith)
          ∙ at.at.bit in
        let below = get_elem?-lt nodes n i g in
        let address : add64 (d.reg 20) (add64 (shl64 (d.reg 15) 3) (512 * n))
            ≡ call.s + 512 * n + 8 * b =
          unfold add64 shl64 in omega (arith, scratch, bit, below, input.room, input.slots) in
        store.stored ∙ rw (before, address) refl

    kept_after : (a : ℕ) → Untouched call a → e.mem a ≡ call.memory a
    kept_after a u =
        let below = get_elem?-lt nodes n i g in
        let k = 64 * n + b in
        let apart : a ≢ call.s + 512 * n + 8 * b =
          λ same. u k (omega (arith, below, input.slots)) (omega (arith, same)) in
        ap (λ (m : ℕ → ℕ). m a) mem_after
        ∙ put_other c.mem (call.s + 512 * n + 8 * b) (d.reg 5) a apart
        ∙ at.at.kept a u

    stored_after :
        (m j k : ℕ) (v : ℕ → ℕ)
        → get_elem? nodes m ≡ some j
        → is_carried (node_at p j).kind ≡ true
        → k < level (suc n) b m
        → k < 64
        → Column p field j v
        → IsPlane k v (e.mem (call.s + 512 * m + 8 * k))
    stored_after m j k v f is_sum below h w =
        let new = call.s + 512 * n + 8 * b in
        let a = call.s + 512 * m + 8 * k in
        let old : a ≢ new → k < level n b m → IsPlane k v (e.mem a) = λ apart lower.
          rw (mem_after, put_other c.mem new (d.reg 5) a apart)
            (at.at.stored m j k v f is_sum lower h w) in
        elim (ℕ_discrete m n) [
          | no other ↦ old (omega (arith, other, in_word, h)) (ground (arith, other, below))
          | yes here ↦ elim (ℕ_discrete k b) [
            | no before ↦ old (omega (arith, here, before)) (ground (arith, here, before, below))
            | yes last ↦
                let same : j ≡ i = cc (f, g, here) in
                let address : a ≡ new = omega (arith, here, last) in
                let value : e.mem a ≡ d.reg 5 =
                  ap (λ (m : ℕ → ℕ). m a) mem_after
                  ∙ ap (put c.mem new (d.reg 5)) address
                  ∙ put_self c.mem new (d.reg 5) in
                rw (value, last) (summed.value v (rw same at w))
          ]
        ]

    carry_here :
        (j : ℕ) (start : ℕ → Bool) (x y : ℕ → ℕ)
        → j ≡ i
        → Sums p field j start x y
        → IsCarry start x y (suc b) (e.reg (carry_register (node_at p j).carry_reg))
    carry_here j start x y same s =
        let register : carry_register (node_at p j).carry_reg ≡ 21 + k =
          ap (λ (m : ℕ). carry_register (node_at p m).carry_reg) same
          ∙ ap carry_register reg
          ∙ carry_register-pos k in
        let value : e.reg (21 + k) ≡ d.reg (21 + k) = store.others (21 + k) (omega arith) in
        rw (register, value) (summed.next start x y (rw same at s))

    carry_there :
        (m j : ℕ) (start : ℕ → Bool) (x y : ℕ → ℕ)
        → m ≢ n
        → get_elem? nodes m ≡ some j
        → Sums p field j start x y
        → IsCarry start x y (level n b m) (e.reg (carry_register (node_at p j).carry_reg))
    carry_there m j start x y other f s =
        let other_carried = Sums-carried s in
        let (k', small', reg') = (input.numbered m j f other_carried).carry in
        let z = carry_register (node_at p j).carry_reg in
        let high : z ≡ 21 + k' = ap carry_register reg' ∙ carry_register-pos k' in
        let taken : carry_register (node_at p i).carry_reg ≡ 21 + k =
          ap carry_register reg ∙ carry_register-pos k in
        let apart : z ≢ 21 + k =
          λ same. input.apart m n j i other f g other_carried carried (same ∙ sym taken) in
        let value : e.reg z ≡ c.reg z =
          same_reg z (omega (arith, high)) (omega (arith, high)) (omega (arith, high))
            (omega (arith, high)) (omega (arith, high)) (omega (arith, high)) (omega (arith, high))
            apart in
        rw value (at.carries m j start x y f s)

    pub carried-AtNode : AtNode p field call nodes sp b (suc n) e
    carried-AtNode = record {
      at = record {
        arrays = special 19 (omega arith) (omega arith) ∙ at.at.arrays;
        scratch = special 20 (omega arith) (omega arith) ∙ at.at.scratch;
        bit = special 15 (omega arith) (omega arith) ∙ at.at.bit;
        kept = kept_after;
        stored = stored_after;
      };
      carries = λ m j start x y f s. elim (ℕ_discrete m n) [
        | yes here ↦
            let level_here : level (suc n) b m ≡ suc b = ground (arith, here) in
            rw level_here (carry_here j start x y (cc (f, g, here)) s)
        | no other ↦
            let level_there : level (suc n) b m ≡ level n b m = ground (arith, other) in
            rw level_there (carry_there m j start x y other f s)
      ];
      same_sp = store.same_sp ∙ summed.adder.same_sp ∙ ready.same_sp ∙ at.same_sp;
    }
