-- ===== src/Arm64/Flow.antt =====
-- Runs of code with branches, put together from their parts.
use native.Mathlib.Nat.{add_assoc}
use apex_engine.Common.{
  ℕ, suc, ◌+◌, ◌≡◌, refl, ◌∙◌, ap, arith, Bool, false, List, [], ◌∷◌, ◌++◌, some, if◌then◌else◌,
}
use apex_engine.Arm64.{
  Instr, Cpu, Cond, falls, stops, jumps, jumps_if, exec, next, go, after_label, is_bind, holds,
}

-- The run from `rest` in state `c` comes to `rest'` in state `d`.
pub record Leads (code rest : List Instr) (c : Cpu) (rest' : List Instr) (d : Cpu) : Type 0 where
  pub steps : ℕ
  pub runs : (n : ℕ) → go (steps + n) code rest c ≡ go n code rest' d

-- Instructions that branch nowhere and name no label.
pub data IsPlain : List Instr → Type 0 where
  plain_nil : IsPlain []
  plain_cons :
      {i : Instr} {seg : List Instr}
      → next i ≡ falls
      → ((l : ℕ) → is_bind l i ≡ false)
      → IsPlain seg
      → IsPlain (i ∷ seg)

pub IsPlain-append : {a b : List Instr} → IsPlain a → IsPlain b → IsPlain (a ++ b)
IsPlain-append plain_nil q = q
IsPlain-append (plain_cons f l p) q = plain_cons f l (IsPlain-append p q)

-- Plain code, run to its end.
unfoldable pub execs : List Instr → Cpu → Cpu
execs [] c = c
execs (i ∷ seg) c = execs seg (exec i c)

pub execs-append : (a b : List Instr) (c : Cpu) → execs (a ++ b) c ≡ execs b (execs a c)
unfolding execs
execs-append [] b c = refl
execs-append (i ∷ a) b c = execs-append a b (exec i c)

pub after_label-append :
    (l : ℕ) {a : List Instr} (b : List Instr) → IsPlain a → after_label l (a ++ b) ≡ after_label l b
unfolding after_label
after_label-append l b plain_nil = refl
after_label-append l b (plain_cons f n p) = rw (n l) (after_label-append l b p)

module _ {code : List Instr} where
  pub Leads-trans :
      {a b e : List Instr} {c d f : Cpu}
      → Leads code a c b d
      → Leads code b d e f
      → Leads code a c e f
  Leads-trans {a} {b} {e} {c} p q = record {
    steps = p.steps + q.steps;
    runs = λ n.
        ap (λ (t : ℕ). go t code a c) (add_assoc (p.steps) (q.steps) n)
        ∙ p.runs (q.steps + n)
        ∙ q.runs n;
  }

  pub Leads-refl : (a : List Instr) (c : Cpu) → Leads code a c a c
  Leads-refl a c = record {
    steps = 0;
    runs = λ n. ap (λ (t : ℕ). go t code a c) {x = 0 + n} {y = n} (omega arith);
  }

  Leads-one :
      {a b : List Instr} {c d : Cpu}
      → ((n : ℕ) → go (suc n) code a c ≡ go n code b d)
      → Leads code a c b d
  Leads-one {a} {b} {c} h = record {
    steps = 1;
    runs = λ n. ap (λ (t : ℕ). go t code a c) {x = 1 + n} {y = suc n} (omega arith) ∙ h n;
  }

  pub Leads-falls :
      (i : Instr) (rest : List Instr) (c : Cpu)
      → next i ≡ falls
      → Leads code (i ∷ rest) c rest (exec i c)
  unfolding go
  Leads-falls i rest c f = Leads-one (λ n. rw (go, f) refl)

  pub Leads-plain :
      {seg : List Instr} (rest : List Instr) (c : Cpu)
      → IsPlain seg
      → Leads code (seg ++ rest) c rest (execs seg c)
  unfolding execs
  Leads-plain rest c plain_nil = Leads-refl rest c
  Leads-plain rest c (plain_cons {i} f l p) =
      Leads-trans (Leads-falls i _ c f) (Leads-plain rest (exec i c) p)

  pub Leads-jump :
      (i : Instr) (rest : List Instr) (c : Cpu) (l : ℕ)
      → next i ≡ jumps l
      → Leads code (i ∷ rest) c (after_label l code) c
  unfolding go
  Leads-jump i rest c l e = Leads-one (λ n. rw (go, e) refl)

  pub Leads-jump_if :
      (i : Instr) (rest : List Instr) (c : Cpu) (k : Cond) (l : ℕ) (b : Bool)
      → next i ≡ jumps_if k l
      → holds k c.compared ≡ b
      → Leads code (i ∷ rest) c (if b then after_label l code else rest) c
  unfolding go
  Leads-jump_if i rest c k l b e h = Leads-one (λ n. rw (go, e) (rw h refl))

  pub Leads-stop :
      (i : Instr) {a : List Instr} (rest : List Instr) {c : Cpu} (d : Cpu)
      → next i ≡ stops
      → Leads code a c (i ∷ rest) d
      → (k : ℕ) × (go k code a c ≡ some d)
  unfolding go
  Leads-stop i rest d e p = (p.steps + 1, p.runs 1 ∙ rw (go, e) refl)
