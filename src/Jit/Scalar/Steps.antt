-- ===== src/Jit/Scalar/Steps.antt =====
-- The nodes of a row, evaluated one after another.
use apex_engine.Common.{
  ℕ, zero, suc, ◌+◌, ◌*◌, ◌<◌, ◌≤◌, ◌≡◌, ◌≢◌, refl, sym, ◌∙◌, ap, arith, List, [], ◌∷◌, ◌++◌, some,
  length, get_elem?, ◌⊎◌, inl, inr, Name,
}
use apex_engine.Word.{two64, add64}
use apex_engine.Arm64.{Instr, Cpu, exec, str_offset, put}
use apex_engine.Arm64.Flow.{execs, execs-append}
use apex_engine.Ir.{NodePool, Pointer, node_at, load, const}
use apex_engine.Jit.Scalar.{get_operand, operand_code, node_switch, node_code}
use apex_engine.Jit.Scalar.Value.{Value, loaded, constant, binary}
use apex_engine.Jit.Scalar.Nodes.{
  Loaded, get_operand-Loaded, get_elem?-lt, switch-Loaded, switch_value,
}
use apex_engine.Jit.Scalar.Row.{
  Call, FieldAt, State, State-Loaded, load_value, const_value, operand_value, Evaluated,
}

pub get_elem?-append_left :
    (xs ys : List ℕ) (k j : ℕ) → get_elem? xs k ≡ some j → get_elem? (xs ++ ys) k ≡ some j
get_elem?-append_left [] ys k j h = absurd (cc h)
get_elem?-append_left (x ∷ xs) ys zero j h = h
get_elem?-append_left (x ∷ xs) ys (suc k) j h = get_elem?-append_left xs ys k j h

pub get_elem?-append_last :
    (xs : List ℕ) (i k j : ℕ)
    → get_elem? (xs ++ i ∷ []) k ≡ some j
    → (get_elem? xs k ≡ some j) ⊎ ((k ≡ length xs) × (j ≡ i))
get_elem?-append_last [] i zero j h = inr (refl, cc h)
get_elem?-append_last [] i (suc k) j h = absurd (cc h)
get_elem?-append_last (x ∷ xs) i zero j h = inl h
get_elem?-append_last (x ∷ xs) i (suc k) j h = elim (get_elem?-append_last xs i k j h) [
  | inl g ↦ inl g
  | inr (e, f) ↦ inr (ap suc e, f)
]

-- What the code of a row leaves alone.
pub record Keeps (c d : Cpu) : Type 0 where
  pub mask : d.reg 19 ≡ c.reg 19
  pub frame : d.reg 29 ≡ c.reg 29
  pub same_sp : d.sp ≡ c.sp

Loaded-Keeps : {c d : Cpu} (out : ℕ) → out ≢ 19 → out ≢ 29 → Loaded out c d → Keeps c d
Loaded-Keeps out h k l = record {
  mask = l.others 19 (λ e. h (sym e)) (omega arith);
  frame = l.others 29 (λ e. k (sym e)) (omega arith);
  same_sp = l.same_sp;
}

pub Keeps-trans : {c d e : Cpu} → Keeps c d → Keeps d e → Keeps c e
Keeps-trans p q = record {
  mask = q.mask ∙ p.mask;
  frame = q.frame ∙ p.frame;
  same_sp = q.same_sp ∙ p.same_sp;
}

put_self : (f : ℕ → ℕ) (r v : ℕ) → put f r v r ≡ v
put_self f r v = ground arith

put_other : (f : ℕ → ℕ) (r v x : ℕ) → x ≢ r → put f r v x ≡ f x
put_other f r v x h = ground arith

pub get_elem?-length : (xs : List ℕ) (i : ℕ) → get_elem? (xs ++ i ∷ []) (length xs) ≡ some i
get_elem?-length [] i = refl
get_elem?-length (x ∷ xs) i = get_elem?-length xs i

store-Keeps : (n : ℕ) (c : Cpu) → Keeps c (exec (str_offset 5 1 n) c)
unfolding exec
store-Keeps n c = record { mask = refl; frame = refl; same_sp = refl }

execs_one : (i : Instr) (c : Cpu) → execs (i ∷ []) c ≡ exec i c
unfolding execs
execs_one i c = refl

execs-node_code :
    (p : NodePool) (before : List ℕ) (i : ℕ) (c : Cpu)
    → execs (node_code p before i) c
      ≡ exec (str_offset 5 1 (length before * 8)) (
          execs (node_switch p before i (node_at p i).kind) (
            execs
              (get_operand before 3 p (node_at p i).right)
              (execs (get_operand before 2 p (node_at p i).left) c)))
unfolding node_code
execs-node_code p before i c =
    let l = get_operand before 2 p (node_at p i).left in
    let r = get_operand before 3 p (node_at p i).right in
    let s = node_switch p before i (node_at p i).kind in
    let e : List Instr = str_offset 5 1 (length before * 8) ∷ [] in
    execs-append l (r ++ (s ++ e)) c
    ∙ execs-append r (s ++ e) (execs l c)
    ∙ execs-append s e (execs r (execs l c))
    ∙ execs_one (str_offset 5 1 (length before * 8)) (execs s (execs r (execs l c)))

module _ {p : NodePool} {call : Call} {r : ℕ} {field : Name → ℕ}
    (room : call.s + 8 * call.size ≤ two64) where
  -- `str val_res, [scratchpad, i * 8]`
  store_State :
      {before : List ℕ} {c : Cpu} (i : ℕ)
      → length before < call.size
      → ((v : ℕ) → Value p field i v → c.reg 5 ≡ v)
      → State p call r field before c
      → State p call r field (before ++ i ∷ []) (exec (str_offset 5 1 (length before * 8)) c)
  unfolding exec
  store_State {before} {c} i h result st =
      let n = length before in
      let at : add64 (c.reg 1) (n * 8) ≡ call.s + 8 * n =
        unfold add64 in omega (arith, st.scratch) in
      let stored : put c.mem (add64 (c.reg 1) (n * 8)) (c.reg 5)
          ≡ put c.mem (call.s + 8 * n) (c.reg 5) =
        ap (λ (a : ℕ). put c.mem a (c.reg 5)) at in
      record {
        arrays = st.arrays;
        scratch = st.scratch;
        row = st.row;
        kept = λ a u.
            ap (λ (m : ℕ → ℕ). m a) stored
            ∙ put_other c.mem (call.s + 8 * n) (c.reg 5) a (u n h)
            ∙ st.kept a u;
        values = λ k j v g w.
            ap (λ (m : ℕ → ℕ). m (call.s + 8 * k)) stored
            ∙ (elim (get_elem?-append_last before i k j g) [
              | inl old ↦
                  put_other c.mem (call.s + 8 * n) (c.reg 5) (call.s + 8 * k)
                    (omega (arith, get_elem?-lt before k j old))
                  ∙ st.values k j v old w
              | inr (last, same) ↦
                  ap (put c.mem (call.s + 8 * n) (c.reg 5)) {x = call.s + 8 * k}
                    {y = call.s + 8 * n} (omega (arith, last))
                  ∙ put_self c.mem (call.s + 8 * n) (c.reg 5)
                  ∙ result v (rw same at w)
            ]);
      }

  -- The result of the `switch`, with the operands in their registers.
  switch_result :
      {before : List ℕ} {c : Cpu} (i : ℕ)
      → State p call r field before c
      → length before ≤ call.size
      → ((node_at p i).kind ≡ load → FieldAt p call r field i)
      → ((a x : ℕ) → (node_at p i).left ≡ some a → Value p field a x → c.reg 2 ≡ x)
      → ((b y : ℕ) → (node_at p i).right ≡ some b → Value p field b y → c.reg 3 ≡ y)
      → (v : ℕ) → Value p field i v
      → (execs (node_switch p before i (node_at p i).kind) c).reg 5 ≡ v
  unfolding node_switch get_operand
  switch_result {before} {c} i st below f l q v (loaded e) =
      let code : node_switch p before i (node_at p i).kind
          ≡ operand_code before 5 load i (node_at p i) =
        rw (node_switch, e) (rw e refl) in
      ap (λ s. (execs s c).reg 5) code ∙ load_value room st 5 (omega arith) below (loaded e) e (f e)
  switch_result {before} {c} i st below f l q v (constant e) =
      let code : node_switch p before i (node_at p i).kind
          ≡ operand_code before 5 const i (node_at p i) =
        rw (node_switch, e) (rw e refl) in
      ap (λ s. (execs s c).reg 5) code ∙ const_value room st 5 (omega arith) below (constant e) e
  switch_result {before} {c} i st below f l q v (binary {a} {b} {x} {y} el er wx wy o) =
      switch_value p before i (node_at p i).kind c o (l a x el wx) (q b y er wy)

  -- What an operand's code puts into its register, if the operand has a value.
  pointer_value :
      {before : List ℕ} {c : Cpu} (st : State p call r field before c) (out : ℕ)
      → out ≢ 31
      → length before ≤ call.size
      → (q : Pointer) → Evaluated before q
      → ((k j : ℕ)
          → get_elem? before k ≡ some j
          → (node_at p j).kind ≡ load
          → FieldAt p call r field j)
      → (a x : ℕ) → q ≡ some a
      → Value p field a x
      → (execs (get_operand before out p q) c).reg out ≡ x
  pointer_value st out h below q done f a x e w =
      let (k, g) = done a e in rw e (operand_value room st out h below w k g (f k a g))

  -- The code of one node evaluates it.
  pub node_State :
      (before : List ℕ) (i : ℕ) (c : Cpu)
      → length before < call.size
      → Evaluated before (node_at p i).left
      → Evaluated before (node_at p i).right
      → ((k j : ℕ)
          → get_elem? (before ++ i ∷ []) k ≡ some j
          → (node_at p j).kind ≡ load
          → FieldAt p call r field j)
      → State p call r field before c
      → let d = execs (node_code p before i) c in
        State p call r field (before ++ i ∷ []) d
        × Keeps c d
        × ((v : ℕ) → Value p field i v → d.reg 5 ≡ v)
  node_State before i c h el er f st =
      let c1 = execs (get_operand before 2 p (node_at p i).left) c in
      let c2 = execs (get_operand before 3 p (node_at p i).right) c1 in
      let l1 = get_operand-Loaded before 2 p (node_at p i).left c in
      let l2 = get_operand-Loaded before 3 p (node_at p i).right c1 in
      let l3 = switch-Loaded p before i (node_at p i).kind c2 in
      let s1 = State-Loaded 2 (omega arith) (omega arith) (omega arith) l1 st in
      let s2 = State-Loaded 3 (omega arith) (omega arith) (omega arith) l2 s1 in
      let s3 = State-Loaded 5 (omega arith) (omega arith) (omega arith) l3 s2 in
      let f' = λ (k j : ℕ) (g : get_elem? before k ≡ some j).
        f k j (get_elem?-append_left before (i ∷ []) k j g) in
      let result =
        switch_result i s2 (omega arith) (f (length before) i (get_elem?-length before i))
          (λ a x e w.
            l2.others 2 (omega arith) (omega arith)
            ∙ pointer_value st 2 (omega arith) (omega arith) (node_at p i).left el f' a x e w)
          (λ b y e w.
            pointer_value s1 3 (omega arith) (omega arith) (node_at p i).right er f' b y e w) in
      rw (execs-node_code p before i c) (
        store_State i h result s3,
        Keeps-trans (Loaded-Keeps 2 (omega arith) (omega arith) l1) (
            Keeps-trans (Loaded-Keeps 3 (omega arith) (omega arith) l2)
              (Keeps-trans (Loaded-Keeps 5 (omega arith) (omega arith) l3) (store-Keeps _ _))),
        λ v w. unfold exec in result v w,
      )
