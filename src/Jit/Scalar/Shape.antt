-- ===== src/Jit/Scalar/Shape.antt =====
-- The parts of the kernel between its labels.
use apex_engine.Common.{ℕ, ◌≡◌, refl, List, [], ◌∷◌, ◌++◌, none, some}
use apex_engine.Arm64.{
  Instr, next, is_bind, after_label, hs, ldr_offset, cmp_imm, bind, branch, branch_if, ret,
}
use apex_engine.Arm64.Flow.{IsPlain, plain_nil, plain_cons, IsPlain-append, after_label-append}
use apex_engine.Ir.{
  Node, NodePool, NodeKind, Pointer, node_at, load, const, add, sub, gt, lt, and, or, not_, select,
  lsl, lsr,
}
use apex_engine.Ir
use apex_engine.Jit.Emit.{emit_mov_imm64}
use apex_engine.Jit.Scalar.{
  operand_code, get_operand, node_switch, node_code, nodes_code, prologue, row_end, epilogue,
  scalar_code,
}

one-IsPlain : (out i : ℕ) → IsPlain (ldr_offset out 1 i ∷ [])
unfolding next is_bind
one-IsPlain out i = plain_cons refl (λ l. refl) plain_nil

operand-IsPlain :
    (before : List ℕ) (out : ℕ) (kind : NodeKind) (j : ℕ) (n : Node)
    → IsPlain (operand_code before out kind j n)
unfolding operand_code emit_mov_imm64 next is_bind
operand-IsPlain before out load j n =
    plain_cons refl (λ l. refl) (plain_cons refl (λ l. refl) plain_nil)
operand-IsPlain before out const j n =
    plain_cons refl (λ l. refl)
      (plain_cons refl (λ l. refl)
        (plain_cons refl (λ l. refl) (plain_cons refl (λ l. refl) plain_nil)))
operand-IsPlain before out add j n = one-IsPlain out _
operand-IsPlain before out sub j n = one-IsPlain out _
operand-IsPlain before out gt j n = one-IsPlain out _
operand-IsPlain before out lt j n = one-IsPlain out _
operand-IsPlain before out Ir.eq j n = one-IsPlain out _
operand-IsPlain before out and j n = one-IsPlain out _
operand-IsPlain before out or j n = one-IsPlain out _
operand-IsPlain before out not_ j n = one-IsPlain out _
operand-IsPlain before out select j n = one-IsPlain out _
operand-IsPlain before out lsl j n = one-IsPlain out _
operand-IsPlain before out lsr j n = one-IsPlain out _

get_operand-IsPlain :
    (before : List ℕ) (out : ℕ) (p : NodePool) (a : Pointer) → IsPlain (get_operand before out p a)
unfolding get_operand
get_operand-IsPlain before out p none = plain_nil
get_operand-IsPlain before out p (some j) =
    operand-IsPlain before out (node_at p j).kind j (node_at p j)

switch-IsPlain :
    (p : NodePool) (before : List ℕ) (i : ℕ) (kind : NodeKind)
    → IsPlain (node_switch p before i kind)
unfolding node_switch next is_bind
switch-IsPlain p before i load = get_operand-IsPlain before 5 p (some i)
switch-IsPlain p before i const = get_operand-IsPlain before 5 p (some i)
switch-IsPlain p before i add = plain_cons refl (λ l. refl) plain_nil
switch-IsPlain p before i sub = plain_cons refl (λ l. refl) plain_nil
switch-IsPlain p before i gt = plain_cons refl (λ l. refl) (plain_cons refl (λ l. refl) plain_nil)
switch-IsPlain p before i lt = plain_cons refl (λ l. refl) (plain_cons refl (λ l. refl) plain_nil)
switch-IsPlain p before i Ir.eq =
    plain_cons refl (λ l. refl) (plain_cons refl (λ l. refl) plain_nil)
switch-IsPlain p before i and = plain_cons refl (λ l. refl) plain_nil
switch-IsPlain p before i or = plain_cons refl (λ l. refl) plain_nil
switch-IsPlain p before i not_ = plain_nil
switch-IsPlain p before i select = plain_nil
switch-IsPlain p before i lsl = plain_nil
switch-IsPlain p before i lsr = plain_nil

node-IsPlain : (p : NodePool) (before : List ℕ) (i : ℕ) → IsPlain (node_code p before i)
unfolding node_code next is_bind
node-IsPlain p before i = IsPlain-append (get_operand-IsPlain before 2 p (node_at p i).left) (
    IsPlain-append (get_operand-IsPlain before 3 p (node_at p i).right) (
      IsPlain-append (switch-IsPlain p before i (node_at p i).kind)
        (plain_cons refl (λ l. refl) plain_nil)))

pub nodes-IsPlain : (p : NodePool) (before rest : List ℕ) → IsPlain (nodes_code p before rest)
unfolding nodes_code
nodes-IsPlain p before [] = plain_nil
nodes-IsPlain p before (i ∷ rest) =
    IsPlain-append (node-IsPlain p before i) (nodes-IsPlain p (before ++ i ∷ []) rest)

pub row_end-IsPlain : IsPlain row_end
unfolding row_end next is_bind
row_end-IsPlain =
    plain_cons refl (λ l. refl)
      (plain_cons refl (λ l. refl) (plain_cons refl (λ l. refl) plain_nil))

pub epilogue-IsPlain : IsPlain epilogue
unfolding epilogue next is_bind
epilogue-IsPlain =
    plain_cons refl (λ l. refl)
      (plain_cons refl (λ l. refl) (plain_cons refl (λ l. refl) plain_nil))

pub prologue-IsPlain : IsPlain prologue
unfolding prologue next is_bind
prologue-IsPlain =
    plain_cons refl (λ l. refl)
      (plain_cons refl (λ l. refl)
        (plain_cons refl (λ l. refl)
          (plain_cons refl (λ l. refl) (plain_cons refl (λ l. refl) plain_nil))))

module _ (p : NodePool) (nodes : List ℕ) where
  abbrev pub at_exit : List Instr
  at_exit = epilogue ++ ret 30 ∷ []

  abbrev pub row_tail : List Instr
  row_tail = row_end ++ branch 0 ∷ bind 1 ∷ at_exit

  abbrev pub at_head : List Instr
  at_head = cmp_imm 20 64 ∷ branch_if hs 1 ∷ (nodes_code p [] nodes ++ row_tail)

  pub scalar_code_lem : scalar_code p nodes ≡ (prologue ++ bind 0 ∷ at_head)
  unfolding scalar_code
  scalar_code_lem = refl

  pub loop_start_lem : after_label 0 (scalar_code p nodes) ≡ at_head
  unfolding scalar_code prologue after_label is_bind
  loop_start_lem = refl

  pub loop_end_lem : after_label 1 (scalar_code p nodes) ≡ at_exit
  unfolding scalar_code prologue row_end after_label is_bind
  loop_end_lem = after_label-append 1 row_tail (nodes-IsPlain p [] nodes)
