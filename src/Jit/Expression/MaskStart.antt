-- ===== src/Jit/Expression/MaskStart.antt =====
-- The masks at the start of the kernel's second loop, and the result from those at its end.
use Prim.Native.Nat.{bit_and}
use apex_engine.Common.{
  ℕ, suc, ◌+◌, ◌*◌, ◌<◌, ◌≤◌, ◌≡◌, refl, sym, ◌∙◌, ap, arith, Bool, true, false, List, [], ◌∷◌,
  some, ltb, Name, length, get_elem?, ◌⊎◌, inl, inr, dec_lt, ◌&&◌,
}
use apex_engine.Word.{ones64, not64, test_bit, IsU64}
use apex_engine.Word.Shift.{test_bit-ones64}
use apex_engine.Word.Bitwise.{test_bit-bit_and}
use apex_engine.Word.Compare.{IsCompared-start, IsCompared-end}
use apex_engine.Arm64.{Cpu, Instr, exec, mov_imm, put, mvn_reg, mov_reg, and_reg}
use apex_engine.Arm64.Flow.{execs}
use apex_engine.Ir.{NodePool}
use apex_engine.Jit.Scalar.Row.{Call}
use apex_engine.Jit.Scalar.Nodes.{get_elem?-lt}
use apex_engine.Jit.Expression.{masks_start, fold_masks, result_code}
use apex_engine.Jit.Expression.Columns.{
  Column-IsU64, Compares, greater, less, Tests, no_tests, more_tests, and_assoc,
}
use apex_engine.Jit.Expression.Steps.{AtNode}
use apex_engine.Jit.Expression.Masks.{AtMask}

-- The masks from number `n` up to `end` are set, and no other registers.
record FirstMasks (n end : ℕ) (c d : Cpu) : Type 0 where
  masks : (m : ℕ) → m < 3 → n ≤ m → m < end → (d.reg (8 + 2 * m) ≡ 0) × (d.reg (9 + 2 * m) ≡ ones64)
  others : (z : ℕ) → (z < 8 + 2 * n) ⊎ (13 < z) → d.reg z ≡ c.reg z
  same_mem : d.mem ≡ c.mem
  same_sp : d.sp ≡ c.sp

abbrev pair : ℕ → List Instr
pair n = mov_imm (8 + 2 * n) 0 ∷ mvn_reg (9 + 2 * n) 31 ∷ []

untouched :
    (n z : ℕ) (c : Cpu) → (z < 8 + 2 * n) ⊎ (13 < z) → n < 3 → (execs (pair n) c).reg z ≡ c.reg z
unfolding execs exec
untouched n z c (inl h) low = ground (arith, h)
untouched n z c (inr h) low = ground (arith, h, low)

masks_start_lem :
    (n : ℕ) (rest : List ℕ) (c : Cpu)
    → FirstMasks n (n + length rest) c (execs (masks_start n rest) c)
unfolding masks_start execs
masks_start_lem n [] c = record {
  masks = λ m h low high. absurd (omega (arith, low, high));
  others = λ z h. refl;
  same_mem = refl;
  same_sp = refl;
}
masks_start_lem n (i ∷ rest) c = elim (dec_lt n 3) [
  | no high ↦
      let full : ltb n 3 ≡ false = ground (arith, high) in
      rw full (record {
        masks = λ m h low up. absurd (omega (arith, low, h, high));
        others = λ z h. refl;
        same_mem = refl;
        same_sp = refl;
      })
  | yes low ↦
      let room : ltb n 3 ≡ true = ground (arith, low) in
      let d = execs (pair n) c in
      let ih = masks_start_lem (n + 1) rest d in
      let one : d.reg (8 + 2 * n) ≡ 0 = unfold exec in ground arith in
      let two : d.reg (9 + 2 * n) ≡ ones64 = unfold exec not64 in ground arith in
      rw room (record {
        masks = λ m h from up. elim (dec_lt n m) [
          | yes later ↦ ih.masks m h (omega (arith, later)) (omega (arith, up))
          | no first ↦
              let same : m ≡ n = omega (arith, from, first) in
              let gt_same = ih.others (8 + 2 * n) (inl (omega arith)) in
              let eq_same = ih.others (9 + 2 * n) (inl (omega arith)) in
              rw same (gt_same ∙ one, eq_same ∙ two)
        ];
        others = λ z h. elim h [
          | inl under ↦ ih.others z (inl (omega (arith, under))) ∙ untouched n z c (inl under) low
          | inr over ↦ ih.others z (inr over) ∙ untouched n z c (inr over) low
        ];
        same_mem = ih.same_mem ∙ (unfold exec in refl);
        same_sp = ih.same_sp ∙ (unfold exec in refl);
      })
]

module _ {p : NodePool} {field : ℕ → Name → ℕ} where
  Compares-IsU64 :
      {i : ℕ} {x y : ℕ → ℕ}
      → ((r : ℕ) (name : Name) → IsU64 (field r name))
      → Compares p field i x y
      → (r : ℕ) → IsU64 (x r) × IsU64 (y r)
  Compares-IsU64 words (greater e l q u v) r = (Column-IsU64 words u r, Column-IsU64 words v r)
  Compares-IsU64 words (less e l q u v) r = (Column-IsU64 words v r, Column-IsU64 words u r)

  -- Before the second loop.
  pub masks-AtMask :
      {call : Call} {nodes comparisons : List ℕ} {sp : ℕ} (c : Cpu)
      → ((r : ℕ) (name : Name) → IsU64 (field r name))
      → AtNode p field call nodes sp 64 0 c
      → AtMask p field call nodes comparisons sp 63
          (λ m. 64)
          (execs (mov_imm 15 63 ∷ []) (execs (masks_start 0 comparisons) c))
  unfolding execs exec
  masks-AtMask {comparisons} c words at =
      let d = execs (masks_start 0 comparisons) c in
      let first = masks_start_lem 0 comparisons c in
      record {
        at = record {
          arrays = first.others 19 (inr (omega arith)) ∙ at.at.arrays;
          scratch = first.others 20 (inr (omega arith)) ∙ at.at.scratch;
          bit = refl;
          kept = λ a u. ap (λ (m : ℕ → ℕ). m a) (first.same_mem) ∙ at.at.kept a u;
          stored = λ m i k v g t below h w.
              rw (first.same_mem) (at.at.stored m i k v g t (ground (arith, below)) h w);
        };
        masks = λ m i x y below g w.
            let (gt, eq) =
              first.masks m below (omega arith) (omega (arith, get_elem?-lt comparisons m i g)) in
            let gt_same : put d.reg 15 63 (8 + 2 * m) ≡ 0 = ground (arith, below, gt) in
            let eq_same : put d.reg 15 63 (9 + 2 * m) ≡ ones64 = ground (arith, below, eq) in
            rw (gt_same, eq_same)
              (IsCompared-start x y (λ r. (Compares-IsU64 words w r).0)
                (λ r. (Compares-IsU64 words w r).1));
        same_sp = first.same_sp ∙ at.same_sp;
      }

  fold_lem :
      (r n : ℕ) (rest : List ℕ) (c : Cpu) {t : ℕ → Bool}
      → n + length rest ≤ 3
      → ((m i : ℕ) (x y : ℕ → ℕ)
          → get_elem? rest m ≡ some i
          → Compares p field i x y
          → test_bit (c.reg (8 + 2 * (n + m))) r ≡ ltb (y r) (x r))
      → Tests p field rest t
      → test_bit ((execs (fold_masks n rest) c).reg 0) r ≡ (test_bit (c.reg 0) r && t r)
  unfolding fold_masks execs
  fold_lem r n [] c h masks no_tests = ground arith
  fold_lem r n (i ∷ rest) c h masks (more_tests {x} {y} {t} w tests) =
      let room : ltb n 3 ≡ true = ground (arith, h) in
      let d = exec (and_reg 0 0 (8 + 2 * n)) c in
      let value : d.reg 0 ≡ bit_and (c.reg 0) (c.reg (8 + 2 * n)) =
        unfold exec in ground (arith, h) in
      let kept =
        λ (m j : ℕ) (u v : ℕ → ℕ) (g : get_elem? rest m ≡ some j) (s : Compares p field j u v).
          let at : 8 + 2 * (n + 1 + m) ≡ 8 + 2 * (n + suc m) = omega arith in
          let same : d.reg (8 + 2 * (n + 1 + m)) ≡ c.reg (8 + 2 * (n + suc m)) =
            unfold exec in ground (arith, at) in
          ap (λ (z : ℕ). test_bit z r) same ∙ masks (suc m) j u v g s in
      let here : test_bit (c.reg (8 + 2 * n)) r ≡ ltb (y r) (x r) =
        ap (λ (k : ℕ). test_bit (c.reg (8 + 2 * k)) r) {x = n} {y = n + 0} (omega arith)
        ∙ masks 0 i x y refl w in
      rw room (
        fold_lem r (n + 1) rest d (omega (arith, h)) kept tests
        ∙ ap (λ (z : ℕ). test_bit z r && t r) value
        ∙ ap (λ b. b && t r) (test_bit-bit_and (c.reg 0) (c.reg (8 + 2 * n)) r)
        ∙ sym (and_assoc (test_bit (c.reg 0) r) (test_bit (c.reg (8 + 2 * n)) r) (t r))
        ∙ ap (λ b. test_bit (c.reg 0) r && (b && t r)) here)

  -- The result marks the rows on which all of the comparisons are true.
  pub result_lem :
      {call : Call} {nodes comparisons : List ℕ} {sp bit r : ℕ} {c : Cpu} {t : ℕ → Bool}
      → r < 64
      → length comparisons ≤ 3
      → AtMask p field call nodes comparisons sp bit (λ m. 0) c
      → Tests p field comparisons t
      → test_bit ((execs (result_code comparisons) c).reg 0) r ≡ t r
  unfolding result_code execs
  result_lem {r} {c} h few at no_tests =
      let same : (exec (mov_imm 0 ones64) c).reg 0 ≡ ones64 = unfold exec in refl in
      ap (λ (z : ℕ). test_bit z r) same ∙ test_bit-ones64 r ∙ ground (arith, h)
  result_lem {r} {c} h few at (more_tests {i} {rest} {x} {y} {t} w tests) =
      let d = exec (mov_reg 0 8) c in
      let kept =
        λ (m j : ℕ) (u v : ℕ → ℕ) (g : get_elem? rest m ≡ some j) (s : Compares p field j u v).
          let low : suc m < 3 = omega (arith, few, get_elem?-lt rest m j g) in
          let same : d.reg (8 + 2 * (1 + m)) ≡ c.reg (8 + 2 * suc m) =
            unfold exec in ground arith in
          ap (λ (z : ℕ). test_bit z r) same
          ∙ (IsCompared-end (at.masks (suc m) j u v low g s) r h).0 in
      let first : test_bit (d.reg 0) r ≡ ltb (y r) (x r) =
        unfold exec in (IsCompared-end (at.masks 0 i x y (omega arith) refl w) r h).0 in
      fold_lem r 1 rest d (omega (arith, few)) kept tests ∙ ap (λ b. b && t r) first

fold_keeps :
    (n : ℕ) (rest : List ℕ) (c : Cpu)
    → let d = execs (fold_masks n rest) c in (d.mem ≡ c.mem) × (d.sp ≡ c.sp)
unfolding fold_masks execs
fold_keeps n [] c = (refl, refl)
fold_keeps n (i ∷ rest) c = elim (dec_lt n 3) [
  | no high ↦ let full : ltb n 3 ≡ false = ground (arith, high) in rw full (refl, refl)
  | yes low ↦
      let room : ltb n 3 ≡ true = ground (arith, low) in
      let (mem, sp) = fold_keeps (n + 1) rest (exec (and_reg 0 0 (8 + 2 * n)) c) in
      rw room (mem ∙ (unfold exec in refl), sp ∙ (unfold exec in refl))
]

-- The code of the result changes neither memory nor the stack pointer.
pub result_keeps :
    (comparisons : List ℕ) (c : Cpu)
    → let d = execs (result_code comparisons) c in (d.mem ≡ c.mem) × (d.sp ≡ c.sp)
unfolding result_code execs
result_keeps [] c = unfold exec in (refl, refl)
result_keeps (i ∷ rest) c =
    let (mem, sp) = fold_keeps 1 rest (exec (mov_reg 0 8) c) in
    (mem ∙ (unfold exec in refl), sp ∙ (unfold exec in refl))
