-- ===== src/Jit/Expression/Shape.antt =====
-- The parts of the kernel between its labels.
use apex_engine.Common.{
  ℕ, ◌+◌, ◌≡◌, refl, Bool, true, false, List, [], ◌∷◌, none, some, ltb, ℤ, pos, negsuc,
  if◌then◌else◌, ◌&&◌,
}
use apex_engine.Arm64.{Instr, next, falls, is_bind}
use apex_engine.Arm64.Flow.{IsPlain, plain_nil, plain_cons, IsPlain-append}
use apex_engine.Circuit.{emit_gt_64}
use apex_engine.Ir.{Node, NodePool, NodeKind, Pointer, node_at, add, sub, load, const, gt, lt}
use apex_engine.Jit.Emit.{emit_mov_imm64}
use apex_engine.Jit.Expression.{
  slot_code, bit_code, get_bit, full_adder, full_subtractor, store_slot, is_carried,
  arithmetic_switch, arithmetic_code, arithmetics_code, carry_start, carries_start, masks_start,
  comparison_switch, comparisons_code, fold_masks, result_code, is_slot, is_bitplane,
}

when-IsPlain : (b : Bool) {seg : List Instr} → IsPlain seg → IsPlain (if b then seg else [])
when-IsPlain true p = p
when-IsPlain false p = plain_nil

-- Instructions of the kernel, one by one.
abbrev step :
    {i : Instr} {seg : List Instr}
    → next i ≡ falls
    → ((l : ℕ) → is_bind l i ≡ false)
    → IsPlain seg
    → IsPlain (i ∷ seg)
step f n p = plain_cons f n p

slot-IsPlain : (out : ℕ) (n : Node) → IsPlain (slot_code out n)
unfolding slot_code next is_bind
slot-IsPlain out n =
    when-IsPlain (is_bitplane n.result_kind && is_slot n.slot_id)
      (step refl (λ l. refl) (step refl (λ l. refl) (step refl (λ l. refl) plain_nil)))

constant-IsPlain : (dst imm : ℕ) → IsPlain (emit_mov_imm64 dst imm)
unfolding emit_mov_imm64 next is_bind
constant-IsPlain dst imm =
    step refl (λ l. refl)
      (step refl (λ l. refl) (step refl (λ l. refl) (step refl (λ l. refl) plain_nil)))

module _ (constants : List (ℕ × ℕ)) where
  bit-IsPlain :
      (out : ℕ) (kind : NodeKind) (j : ℕ) (n : Node) → IsPlain (bit_code constants out kind j n)
  unfolding bit_code next is_bind
  bit-IsPlain out load j n =
      step refl (λ l. refl) (step refl (λ l. refl) (step refl (λ l. refl) plain_nil))
  bit-IsPlain out const j n =
      IsPlain-append (constant-IsPlain 4 _)
        (step refl (λ l. refl) (step refl (λ l. refl) plain_nil))
  bit-IsPlain out kind j n = slot-IsPlain out n

  get_bit-IsPlain : (out : ℕ) (p : NodePool) (q : Pointer) → IsPlain (get_bit constants out p q)
  unfolding get_bit
  get_bit-IsPlain out p none = plain_nil
  get_bit-IsPlain out p (some j) = bit-IsPlain out (node_at p j).kind j (node_at p j)

store-IsPlain : (slot_id : ℤ) → IsPlain (store_slot slot_id)
unfolding store_slot next is_bind
store-IsPlain slot_id =
    step refl (λ l. refl) (step refl (λ l. refl) (step refl (λ l. refl) plain_nil))

adder-IsPlain : (carry : ℕ) → IsPlain (full_adder carry) × IsPlain (full_subtractor carry)
unfolding full_adder full_subtractor next is_bind
adder-IsPlain carry = (
  step refl (λ l. refl)
      (step refl (λ l. refl)
        (step refl (λ l. refl) (step refl (λ l. refl) (step refl (λ l. refl) plain_nil)))),
  step refl (λ l. refl)
      (step refl (λ l. refl)
        (step refl (λ l. refl)
          (step refl (λ l. refl) (step refl (λ l. refl) (step refl (λ l. refl) plain_nil))))),
)

gt-IsPlain : (x y g e : ℕ) → IsPlain (emit_gt_64 x y g e)
unfolding emit_gt_64 next is_bind
gt-IsPlain x y g e =
    step refl (λ l. refl)
      (step refl (λ l. refl)
        (step refl (λ l. refl) (step refl (λ l. refl) (step refl (λ l. refl) plain_nil))))

module _ (constants : List (ℕ × ℕ)) (p : NodePool) where
  switch-IsPlain : (kind : NodeKind) (n : Node) → IsPlain (arithmetic_switch constants p kind n)
  unfolding arithmetic_switch
  switch-IsPlain add n = IsPlain-append (adder-IsPlain _).0 (store-IsPlain n.slot_id)
  switch-IsPlain sub n = IsPlain-append (adder-IsPlain _).1 (store-IsPlain n.slot_id)
  switch-IsPlain kind n = plain_nil

  pub arithmetics-IsPlain : (nodes : List ℕ) → IsPlain (arithmetics_code constants p nodes)
  unfolding arithmetics_code arithmetic_code
  arithmetics-IsPlain [] = plain_nil
  arithmetics-IsPlain (i ∷ nodes) =
      let n = node_at p i in
      IsPlain-append
        (when-IsPlain (is_carried n.kind) (
          IsPlain-append (get_bit-IsPlain constants 2 p n.left)
            (IsPlain-append (get_bit-IsPlain constants 3 p n.right) (switch-IsPlain n.kind n))))
        (arithmetics-IsPlain nodes)

  comparison-IsPlain :
      (kind : NodeKind) (k : ℕ) (n : Node) → IsPlain (comparison_switch constants p kind k n)
  unfolding comparison_switch
  comparison-IsPlain lt k n =
      IsPlain-append (get_bit-IsPlain constants 2 p n.left)
        (IsPlain-append (get_bit-IsPlain constants 3 p n.right) (gt-IsPlain 3 2 _ _))
  comparison-IsPlain gt k n =
      IsPlain-append (get_bit-IsPlain constants 2 p n.left)
        (IsPlain-append (get_bit-IsPlain constants 3 p n.right) (gt-IsPlain 2 3 _ _))
  comparison-IsPlain kind k n = plain_nil

  pub comparisons-IsPlain :
      (k : ℕ) (comparisons : List ℕ) → IsPlain (comparisons_code constants p k comparisons)
  unfolding comparisons_code
  comparisons-IsPlain k [] = plain_nil
  comparisons-IsPlain k (i ∷ comparisons) = when-IsPlain (ltb k 3) (
      IsPlain-append (comparison-IsPlain (node_at p i).kind k (node_at p i))
        (comparisons-IsPlain (k + 1) comparisons))

module _ (p : NodePool) where
  carry-IsPlain : (kind : NodeKind) (z : ℤ) → IsPlain (carry_start p kind z)
  unfolding carry_start next is_bind
  carry-IsPlain kind (negsuc k) = plain_nil
  carry-IsPlain add (pos k) = step refl (λ l. refl) plain_nil
  carry-IsPlain sub (pos k) = step refl (λ l. refl) plain_nil
  carry-IsPlain kind (pos k) = plain_nil

  pub carries-IsPlain : (nodes : List ℕ) → IsPlain (carries_start p nodes)
  unfolding carries_start
  carries-IsPlain [] = plain_nil
  carries-IsPlain (i ∷ nodes) =
      IsPlain-append (carry-IsPlain (node_at p i).kind (node_at p i).carry_reg)
        (carries-IsPlain nodes)

pub masks-IsPlain : (k : ℕ) (comparisons : List ℕ) → IsPlain (masks_start k comparisons)
unfolding masks_start next is_bind
masks-IsPlain k [] = plain_nil
masks-IsPlain k (i ∷ comparisons) =
    when-IsPlain (ltb k 3)
      (step refl (λ l. refl) (step refl (λ l. refl) (masks-IsPlain (k + 1) comparisons)))

fold-IsPlain : (k : ℕ) (comparisons : List ℕ) → IsPlain (fold_masks k comparisons)
unfolding fold_masks next is_bind
fold-IsPlain k [] = plain_nil
fold-IsPlain k (i ∷ comparisons) =
    when-IsPlain (ltb k 3) (step refl (λ l. refl) (fold-IsPlain (k + 1) comparisons))

pub result-IsPlain : (comparisons : List ℕ) → IsPlain (result_code comparisons)
unfolding result_code next is_bind
result-IsPlain [] = step refl (λ l. refl) plain_nil
result-IsPlain (i ∷ comparisons) = step refl (λ l. refl) (fold-IsPlain 1 comparisons)
