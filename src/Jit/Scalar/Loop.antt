-- ===== src/Jit/Scalar/Loop.antt =====
-- The loop over the rows.
use Prim.Native.Nat.{bit_or}
use apex_engine.Common.{
  ℕ, zero, suc, ◌+◌, ◌*◌, ◌%◌, ◌<◌, ◌≤◌, ◌≡◌, refl, ◌∙◌, ap, ap₂, arith, List, [], ◌∷◌, ◌++◌, some,
  length, get_elem?, ◌==◌, Name, ltb, true, false, ◌&&◌,
}
use apex_engine.Word.{two64, add64, shl64, test_bit}
use apex_engine.Arm64.{Instr, Cpu, exec, cmp_imm, branch, branch_if, hs, holds, next, bind}
use apex_engine.Arm64.Flow.{
  Leads, Leads-trans, Leads-refl, Leads-plain, Leads-falls, Leads-jump, Leads-jump_if, execs,
}
use apex_engine.Ir.{NodePool, node_at, load}
use apex_engine.Jit.Scalar.{nodes_code, row_end, scalar_code}
use apex_engine.Jit.Scalar.Value.{Value}
use apex_engine.Jit.Scalar.Row.{Call, Untouched, FieldAt, State}
use apex_engine.Jit.Scalar.Whole.{Ordered, last_of, nodes_State, mask_next}
use apex_engine.Jit.Scalar.Shape.{
  nodes-IsPlain, row_end-IsPlain, at_head, at_exit, row_tail, loop_start_lem, loop_end_lem,
}

-- Before row `r`, in a kernel whose stack pointer is `sp`.
pub record AtRow (call : Call) (flags : ℕ → ℕ) (sp r : ℕ) (c : Cpu) : Type 0 where
  pub arrays : c.reg 0 ≡ call.fa
  pub scratch : c.reg 1 ≡ call.s
  pub row : c.reg 20 ≡ r
  pub kept : (a : ℕ) → Untouched call a → c.mem a ≡ call.memory a
  pub mask : (k : ℕ) → k < 64 → test_bit (c.reg 19) k ≡ (ltb k r && flags k == 1)
  pub same_sp : c.sp ≡ sp

row_end-AtRow :
    {call : Call} {flags : ℕ → ℕ} {sp r : ℕ} (d : Cpu)
    → r < 64
    → flags r ≤ 1
    → d.reg 5 ≡ flags r
    → AtRow call flags sp r d
    → AtRow call flags sp (r + 1) (execs row_end d)
unfolding row_end execs exec
row_end-AtRow {call} {flags} {sp} {r} d h small root at = record {
  arrays = at.arrays;
  scratch = at.scratch;
  row = unfold add64 in omega (arith, at.row, h);
  kept = at.kept;
  mask = λ k hk.
      ap₂ (λ (x t : ℕ). test_bit (bit_or (d.reg 19) (shl64 x (t % 64))) k) root (at.row)
      ∙ mask_next (d.reg 19) (flags r) flags r k hk h small refl (at.mask k hk);
  same_sp = at.same_sp;
}

-- What the kernel is given: `nodes` in an order in which operands come first, the fields' arrays,
-- and for each row the value of the last node, a truth value.
pub record Input (p : NodePool) (call : Call) (field : ℕ → Name → ℕ) (flags : ℕ → ℕ) (i : ℕ)
    (rest : List ℕ) : Type 0 where
  pub room : call.s + 8 * call.size ≤ two64
  pub fit : suc (length rest) ≤ call.size
  pub ordered : Ordered p [] (i ∷ rest)
  pub fields :
      (r k j : ℕ)
      → r < 64
      → get_elem? (i ∷ rest) k ≡ some j
      → (node_at p j).kind ≡ load
      → FieldAt p call r (field r) j
  pub values : (r : ℕ) → r < 64 → Value p (field r) (last_of i rest) (flags r)
  pub small : (r : ℕ) → r < 64 → flags r ≤ 1

cmp-AtRow :
    {call : Call} {flags : ℕ → ℕ} {sp r : ℕ} (c : Cpu)
    → AtRow call flags sp r c
    → AtRow call flags sp r (exec (cmp_imm 20 64) c)
unfolding exec
cmp-AtRow c at = record {
  arrays = at.arrays;
  scratch = at.scratch;
  row = at.row;
  kept = at.kept;
  mask = at.mask;
  same_sp = at.same_sp;
}

module _ {p : NodePool} {call : Call} {field : ℕ → Name → ℕ} {flags : ℕ → ℕ} {i : ℕ} {rest : List ℕ}
    (input : Input p call field flags i rest) where
  -- The code of a row, behind the comparison at its head.
  row_done :
      {sp : ℕ} (r : ℕ) (c : Cpu)
      → r < 64
      → AtRow call flags sp r c
      → AtRow call flags sp (r + 1) (execs row_end (execs (nodes_code p [] (i ∷ rest)) c))
  row_done r c h at =
      let start : State p call r (field r) [] c = record {
        arrays = at.arrays;
        scratch = at.scratch;
        row = at.row;
        kept = at.kept;
        values = λ k j v g w. absurd (cc g);
      } in
      let d = execs (nodes_code p [] (i ∷ rest)) c in
      let (s, k, v) =
        nodes_State (input.room) [] i rest (i ∷ rest) c (omega (arith, input.fit)) refl
          (input.ordered) (λ n j g. input.fields r n j h g) start in
      row_end-AtRow d h (input.small r h) (v (flags r) (input.values r h)) (record {
        arrays = s.arrays;
        scratch = s.scratch;
        row = s.row;
        kept = s.kept;
        mask = λ n hn. ap (λ (m : ℕ). test_bit m n) (k.mask) ∙ at.mask n hn;
        same_sp = k.same_sp ∙ at.same_sp;
      })

  abbrev code : List Instr
  code = scalar_code p (i ∷ rest)

  abbrev head : List Instr
  head = at_head p (i ∷ rest)

  -- The branch at the head, and the one at the end of a row.
  row-Leads :
      {sp : ℕ} (r : ℕ) (c : Cpu)
      → r < 64
      → AtRow call flags sp r c
      → (d : Cpu) × AtRow call flags sp (r + 1) d × Leads code head c head d
  unfolding next
  row-Leads r c h at =
      let c1 = exec (cmp_imm 20 64) c in
      let at1 = cmp-AtRow c at in
      let c2 = execs (nodes_code p [] (i ∷ rest)) c1 in
      let d = execs row_end c2 in
      let in_range : holds hs c1.compared ≡ false = unfold holds exec in ground (arith, at.row) in
      let on =
        Leads-jump_if {code = code} (branch_if hs 1)
          (nodes_code p [] (i ∷ rest) ++ row_tail p (i ∷ rest)) c1 hs 1 false refl in_range in
      let jump = Leads-jump {code = code} (branch 0) (bind 1 ∷ at_exit p (i ∷ rest)) d 0 refl in
      let back = rw (loop_start_lem p (i ∷ rest)) at jump in
      (
        d,
        row_done r c1 h at1,
        Leads-trans (Leads-falls (cmp_imm 20 64) _ c refl) (
            Leads-trans on (
              Leads-trans (Leads-plain (row_tail p (i ∷ rest)) c1 (nodes-IsPlain p [] (i ∷ rest))) (
                Leads-trans
                  (Leads-plain (branch 0 ∷ bind 1 ∷ at_exit p (i ∷ rest)) c2 row_end-IsPlain)
                  back))),
      )

  rows-Leads :
      {sp : ℕ} (left r : ℕ) (c : Cpu)
      → r + left ≡ 64
      → AtRow call flags sp r c
      → (d : Cpu) × AtRow call flags sp 64 d × Leads code head c head d
  rows-Leads {sp} zero r c e at =
      let last : r ≡ 64 = omega (arith, e) in (c, rw last at at, Leads-refl head c)
  rows-Leads (suc left) r c e at =
      let (d, at', l) = row-Leads r c (omega (arith, e)) at in
      let (f, done, l') = rows-Leads left (r + 1) d (omega (arith, e)) at' in
      (f, done, Leads-trans l l')

  -- From the first row to the code behind the loop.
  pub loop-Leads :
      {sp : ℕ} (c : Cpu)
      → AtRow call flags sp 0 c
      → (d : Cpu) × AtRow call flags sp 64 d × Leads code head c (at_exit p (i ∷ rest)) d
  unfolding next
  loop-Leads c at =
      let (d, done, l) = rows-Leads 64 0 c (omega arith) at in
      let d1 = exec (cmp_imm 20 64) d in
      let at_end : holds hs d1.compared ≡ true = unfold holds exec in ground (arith, done.row) in
      let off =
        Leads-jump_if {code = code} (branch_if hs 1)
          (nodes_code p [] (i ∷ rest) ++ row_tail p (i ∷ rest)) d1 hs 1 true refl at_end in
      let exit = rw (loop_end_lem p (i ∷ rest)) at off in
      (
        d1,
        cmp-AtRow d done,
        Leads-trans l (Leads-trans (Leads-falls (cmp_imm 20 64) _ d refl) exit),
      )
