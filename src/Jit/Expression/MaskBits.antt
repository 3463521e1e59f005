-- ===== src/Jit/Expression/MaskBits.antt =====
-- The body of the kernel's second loop: all of its comparisons at one bit.
use apex_engine.Common.{
  ℕ, zero, suc, ◌+◌, ◌*◌, ◌<◌, ◌≤◌, ◌≡◌, refl, ◌∙◌, ap, arith, true, false, List, [], ◌∷◌, some,
  ltb, Name, length, get_elem?, ℕ_discrete, inl, inr, dec_lt,
}
use apex_engine.Word.{sub64, ones64}
use apex_engine.Word.Compare.{IsCompared}
use apex_engine.Arm64.{Cpu, exec, run, sub_imm, put}
use apex_engine.Arm64.Flow.{execs, execs-append}
use apex_engine.Circuit.{emit_gt_64}
use apex_engine.Circuit.Laws.{AreGtRegs}
use apex_engine.Ir.{NodePool, node_at, gt, lt}
use apex_engine.Jit.Scalar.Row.{Call}
use apex_engine.Jit.Scalar.Nodes.{get_elem?-lt}
use apex_engine.Jit.Expression.{get_bit, comparison_switch, comparisons_code}
use apex_engine.Jit.Expression.Columns.{Compares, greater, less}
use apex_engine.Jit.Expression.Operands.{AtBit}
use apex_engine.Jit.Expression.Steps.{Ready, operands-Ready, AreNumbered}
use apex_engine.Jit.Expression.Masks.{
  AtMask, AreComparable, seen, ordered_cases, no_code, Compares-ordered, execs-run, execs_three,
  Step, masks_before, gt_others, gt_mem, gt_sp, gt_masks,
}

-- What `bit - 1` makes of the bit; below bit 0 is the word of ones.
abbrev pub below_bit : ℕ → ℕ
below_bit zero = ones64
below_bit (suc b) = b

below_bit_lem : (b : ℕ) → b < 64 → sub64 b 1 ≡ below_bit b
unfolding sub64
below_bit_lem zero h = refl
below_bit_lem (suc b) h = omega (arith, h)

regs : (x y n : ℕ) → n < 3 → 2 ≤ x → x ≤ 3 → 2 ≤ y → y ≤ 3 → AreGtRegs x y (8 + 2 * n) (9 + 2 * n)
regs x y n small x2 x3 y2 y3 = record {
  x_free = (omega arith, omega arith, omega arith);
  y_free = (omega arith, omega arith, omega arith);
  gt_free = (omega arith, omega arith, omega arith);
  eq_free = (omega arith, omega arith, omega arith);
  apart = (omega arith, omega arith, omega arith, omega arith, omega arith);
}

module _ {p : NodePool} {field : ℕ → Name → ℕ} {b n i : ℕ} (small : n < 3) {c d : Cpu}
    (ready : Ready p field b i c d) where
  abbrev regs23 : AreGtRegs 2 3 (8 + 2 * n) (9 + 2 * n)
  regs23 = regs 2 3 n small (omega arith) (omega arith) (omega arith) (omega arith)

  abbrev regs32 : AreGtRegs 3 2 (8 + 2 * n) (9 + 2 * n)
  regs32 = regs 3 2 n small (omega arith) (omega arith) (omega arith) (omega arith)

  gt_next :
      (node_at p i).kind ≡ gt
      → {x y : ℕ → ℕ} → Compares p field i x y
      → IsCompared (suc b) x y (c.reg (8 + 2 * n)) (c.reg (9 + 2 * n))
      → let e = run (emit_gt_64 2 3 (8 + 2 * n) (9 + 2 * n)) d in
        IsCompared b x y (e.reg (8 + 2 * n)) (e.reg (9 + 2 * n))
  gt_next e (less f l r u v) m = cc
  gt_next e (greater {a} {b = a'} {x} {y} f l r u v) m =
      gt_masks small ready 2 3 regs23 (masks_before small ready m) (ready.left a x l u)
        (ready.right a' y r v)

  lt_next :
      (node_at p i).kind ≡ lt
      → {x y : ℕ → ℕ} → Compares p field i x y
      → IsCompared (suc b) x y (c.reg (8 + 2 * n)) (c.reg (9 + 2 * n))
      → let e = run (emit_gt_64 3 2 (8 + 2 * n) (9 + 2 * n)) d in
        IsCompared b x y (e.reg (8 + 2 * n)) (e.reg (9 + 2 * n))
  lt_next e (greater f l r u v) m = cc
  lt_next e (less {a} {b = a'} {x} {y} f l r u v) m =
      gt_masks small ready 3 2 regs32 (masks_before small ready m) (ready.right a' y r v)
        (ready.left a x l u)

  gt-Step :
      (node_at p i).kind ≡ gt
      → Step p field b n i c (run (emit_gt_64 2 3 (8 + 2 * n) (9 + 2 * n)) d)
  gt-Step e = record {
    next = λ x y s m. gt_next e s m;
    others = λ z h h14 hg he. gt_others small ready 2 3 regs23 z h h14 hg he;
    same_mem = gt_mem small ready 2 3 regs23;
    same_sp = gt_sp small ready 2 3 regs23;
  }

  lt-Step :
      (node_at p i).kind ≡ lt
      → Step p field b n i c (run (emit_gt_64 3 2 (8 + 2 * n) (9 + 2 * n)) d)
  lt-Step e = record {
    next = λ x y s m. lt_next e s m;
    others = λ z h h14 hg he. gt_others small ready 3 2 regs32 z h h14 hg he;
    same_mem = gt_mem small ready 3 2 regs32;
    same_sp = gt_sp small ready 3 2 regs32;
  }

comparison_step :
    {p : NodePool} {field : ℕ → Name → ℕ} {call : Call} {nodes comparisons : List ℕ} {sp b n i : ℕ}
    {c d : Cpu}
    → n < 3
    → get_elem? comparisons n ≡ some i
    → AtMask p field call nodes comparisons sp b (seen n b) c
    → Step p field b n i c d
    → AtMask p field call nodes comparisons sp b (seen (suc n) b) d
comparison_step {p} {field} {b = b} {n} {i} {c} {d} small g at s = record {
  at = record {
    arrays = s.others 19 (omega arith) (omega arith) (omega arith) (omega arith) ∙ at.at.arrays;
    scratch = s.others 20 (omega arith) (omega arith) (omega arith) (omega arith) ∙ at.at.scratch;
    bit = s.others 15 (omega arith) (omega arith) (omega arith) (omega arith) ∙ at.at.bit;
    kept = λ a u. ap (λ (m : ℕ → ℕ). m a) (s.same_mem) ∙ at.at.kept a u;
    stored = λ m j k v f t below h w. rw (s.same_mem) (at.at.stored m j k v f t below h w);
  };
  masks = λ m j x y below f w. elim (ℕ_discrete m n) [
    | yes here ↦
        let same : j ≡ i = cc (f, g, here) in
        let old = at.masks m j x y below f w in
        let before : seen n b m ≡ suc b = ground (arith, here) in
        let after : seen (suc n) b m ≡ b = ground (arith, here) in
        let old' = rw (before, here) at old in rw (after, here) (s.next x y (rw same at w) old')
    | no other ↦
        let level : seen (suc n) b m ≡ seen n b m = ground (arith, other) in
        let gt_same : d.reg (8 + 2 * m) ≡ c.reg (8 + 2 * m) =
          s.others (8 + 2 * m) (omega arith) (omega (arith, below)) (omega (arith, other))
            (omega arith) in
        let eq_same : d.reg (9 + 2 * m) ≡ c.reg (9 + 2 * m) =
          s.others (9 + 2 * m) (omega arith) (omega arith) (omega arith) (omega (arith, other)) in
        rw (level, gt_same, eq_same) (at.masks m j x y below f w)
  ];
  same_sp = s.same_sp ∙ at.same_sp;
}

module _ {constants : List (ℕ × ℕ)} {p : NodePool} {field : ℕ → Name → ℕ} {call : Call}
    {nodes comparisons : List ℕ} (input : AreNumbered constants p field call nodes)
    (operands : AreComparable constants p field call nodes comparisons) {b : ℕ}
    (in_word : b < 64) where
  switch-Step :
      {n i : ℕ} (c : Cpu)
      → n < 3
      → get_elem? comparisons n ≡ some i
      → AtBit p field call nodes (λ m. 64) b c
      → Step p field b n i c
          (execs (comparison_switch constants p (node_at p i).kind n (node_at p i)) c)
  unfolding comparison_switch execs
  switch-Step {n} {i} c small g at =
      let left = get_bit constants 2 p (node_at p i).left in
      let right = get_bit constants 3 p (node_at p i).right in
      let d = execs right (execs left c) in
      let ready =
        operands-Ready {m = length nodes} (input.room) (input.slots) in_word (λ m h. in_word) i c at
          (λ j e. operands.left n i j g e) (λ j e. operands.right n i j g e) in
      elim (ordered_cases (node_at p i).kind) [
        | inl e ↦
            let circuit = emit_gt_64 2 3 (8 + 2 * n) (9 + 2 * n) in
            let code : execs (comparison_switch constants p (node_at p i).kind n (node_at p i)) c
                ≡ run circuit d =
              rw e (execs_three left right circuit c ∙ execs-run 2 3 (8 + 2 * n) (9 + 2 * n) d) in
            rw code (gt-Step small ready e)
        | inr (inl e) ↦
            let circuit = emit_gt_64 3 2 (8 + 2 * n) (9 + 2 * n) in
            let code : execs (comparison_switch constants p (node_at p i).kind n (node_at p i)) c
                ≡ run circuit d =
              rw e (execs_three left right circuit c ∙ execs-run 3 2 (8 + 2 * n) (9 + 2 * n) d) in
            rw code (lt-Step small ready e)
        | inr (inr e) ↦ rw (no_code constants p (node_at p i).kind n i e) (record {
          next = λ x y s m. let ordered = Compares-ordered s in cc (ordered, e);
          others = λ z h h14 hg he. refl;
          same_mem = refl;
          same_sp = refl;
        })
      ]

  -- Behind the third comparison there are no masks.
  past_third :
      {sp n : ℕ} (l : ℕ) {c : Cpu}
      → 3 ≤ n
      → AtMask p field call nodes comparisons sp b (seen n b) c
      → AtMask p field call nodes comparisons sp b (seen (n + l) b) c
  past_third {n} l h at = record {
    at = at.at;
    masks = λ m i x y below f w.
        let same : seen (n + l) b m ≡ seen n b m = ground (arith, below, h) in
        rw same (at.masks m i x y below f w);
    same_sp = at.same_sp;
  }

  comparisons_step :
      {sp : ℕ} (n : ℕ) (rest : List ℕ) (c : Cpu)
      → ((m : ℕ) → get_elem? comparisons (n + m) ≡ get_elem? rest m)
      → AtMask p field call nodes comparisons sp b (seen n b) c
      → AtMask p field call nodes comparisons sp b
          (seen (n + length rest) b)
          (execs (comparisons_code constants p n rest) c)
  unfolding comparisons_code execs
  comparisons_step n [] c same at = let e : n + 0 ≡ n = omega arith in rw e at
  comparisons_step n (i ∷ rest) c same at = elim (dec_lt n 3) [
    | no high ↦
        let full : ltb n 3 ≡ false = ground (arith, high) in
        rw full (past_third (suc (length rest)) (omega (arith, high)) at)
    | yes low ↦
        let room : ltb n 3 ≡ true = ground (arith, low) in
        let first : get_elem? comparisons n ≡ some i =
          ap (get_elem? comparisons) {x = n} {y = n + 0} (omega arith) ∙ same 0 in
        let e : n + suc (length rest) ≡ n + 1 + length rest = omega arith in
        let next : suc n ≡ n + 1 = omega arith in
        let one = comparison_switch constants p (node_at p i).kind n (node_at p i) in
        let stepped = comparison_step low first at (switch-Step c low first at.at) in
        let stepped' = rw next at stepped in
        rw (room, e, execs-append one (comparisons_code constants p (n + 1) rest) c)
          (comparisons_step (n + 1) rest (execs one c)
            (λ m.
              ap (get_elem? comparisons) {x = n + 1 + m} {y = n + suc m} (omega arith)
              ∙ same (suc m))
            stepped')
  ]

  -- All comparisons, and the next bit down.
  pub mask_step :
      {sp : ℕ} (c : Cpu)
      → AtMask p field call nodes comparisons sp b (λ m. suc b) c
      → AtMask p field call nodes comparisons sp
          (below_bit b)
          (λ m. b)
          (execs (sub_imm 15 15 1 ∷ []) (execs (comparisons_code constants p 0 comparisons) c))
  unfolding execs exec
  mask_step c at =
      let d = execs (comparisons_code constants p 0 comparisons) c in
      let zero_add = λ (m : ℕ). ap (get_elem? comparisons) {x = 0 + m} {y = m} (omega arith) in
      let start : AtMask p field call nodes comparisons _ b (seen 0 b) c = record {
        at = at.at;
        masks = λ m i x y below f w.
            let e : seen 0 b m ≡ suc b = ground arith in rw e (at.masks m i x y below f w);
        same_sp = at.same_sp;
      } in
      let all = comparisons_step 0 comparisons c zero_add start in
      record {
        at = record {
          arrays = all.at.arrays;
          scratch = all.at.scratch;
          bit = unfold sub64 in ap (λ (t : ℕ). sub64 t 1) (all.at.bit) ∙ below_bit_lem b in_word;
          kept = all.at.kept;
          stored = all.at.stored;
        };
        masks = λ m i x y below f w.
            let e : seen (0 + length comparisons) b m ≡ b =
              ground (arith, get_elem?-lt comparisons m i f) in
            let gt_same : put d.reg 15 (sub64 (d.reg 15) 1) (8 + 2 * m) ≡ d.reg (8 + 2 * m) =
              ground (arith, below) in
            let eq_same : put d.reg 15 (sub64 (d.reg 15) 1) (9 + 2 * m) ≡ d.reg (9 + 2 * m) =
              ground (arith, below) in
            let masks = all.masks m i x y below f w in
            let masks' = rw e at masks in rw (gt_same, eq_same) masks';
        same_sp = all.same_sp;
      }
