-- ===== src/Jit/Expression/Limits.antt =====
-- The early returns of `compile_expression`: eight fields, eight slots, eight carries.
use apex_engine.Common.{
  ℕ, zero, suc, ◌+◌, ◌<◌, ◌≤◌, ◌≡◌, refl, sym, ◌∙◌, ap, arith, ℤ, pos, Bool, true, false, not, List,
  [], ◌∷◌, length, set, get_or, get_or-set_self, get_or-set_ne, length-set, leb, ◌⊎◌, inl, inr, Map,
  Name, find, assign, name_eq, Bool-cases, Option-cases, dec_lt, none, some,
}
use apex_engine.Word.Count.{count_below, count_below-less}
use apex_engine.Ir.{Node, NodePool, node_at, fresh_node}
use apex_engine.Jit.Emit.{number_field, c_string, set_field_idx, index_of}
use apex_engine.Jit.Scratchpad.{max_slots, ScratchpadManager, alloc_slot}
use apex_engine.Jit.Scratchpad.Slots.{alloc_from_lem}
use apex_engine.Jit.Expression.{is_slot}
use apex_engine.Jit.Expression.Compile.{
  number_fields, assign_slots, assign_carries, set_slot_id, set_carry_reg,
}

abbrev unused : ScratchpadManager → ℕ → Bool
unused used k = not (get_or used k false)

none_unused :
    (n : ℕ) (used : ScratchpadManager)
    → ((k : ℕ) → 0 ≤ k → k < n → get_or used k false ≡ true)
    → count_below n (unused used) ≡ 0
unfolding count_below
none_unused zero used all = refl
none_unused (suc n) used all =
    ground (
      arith,
      all n (omega arith) (omega arith),
      none_unused n used (λ k z h. all k z (omega arith)),
    )

-- Slots are given to the nodes as long as there are some.
pub assign_slots_lem :
    (nodes : List ℕ) (used : ScratchpadManager) (p : NodePool)
    → length used ≡ max_slots
    → (assign_slots nodes used p).0 ≡ leb (length nodes) (count_below max_slots (unused used))
unfolding assign_slots alloc_slot is_slot
assign_slots_lem [] used p size = ground arith
assign_slots_lem (i ∷ nodes) used p size = elim (alloc_from_lem max_slots 0 max_slots used refl) [
  | inl (k, z, h, free, given) ↦
      let fewer =
        count_below-less max_slots k (unused used) (unused (set used k true)) h (ap not free)
          (ap not (get_or-set_self used k true false (omega (arith, size, h))))
          (λ j apart. ap not (get_or-set_ne used k j true false (λ e. apart (sym e)))) in
      let ih =
        assign_slots_lem nodes (set used k true) (set_slot_id i (pos k) p)
          (length-set used k true ∙ size) in
      rw given (ih ∙ ground (arith, fewer))
  | inr (all, failed) ↦ rw failed (ground (arith, none_unused max_slots used all))
]

pub assign_carries_lem :
    (nodes : List ℕ) (k : ℕ) (p : NodePool)
    → k + length nodes ≤ 8
    → (assign_carries nodes k p).0 ≡ true
unfolding assign_carries
assign_carries_lem [] k p h = refl
assign_carries_lem (i ∷ nodes) k p h =
    let ok : leb 8 k ≡ false = ground (arith, h) in
    ground (
      arith,
      ok,
      assign_carries_lem nodes (k + 1) (set_carry_reg i (pos k) p) (omega (arith, h)),
      assign_carries_lem nodes k p (omega (arith, h)),
    )

-- The numbers of the fields that the nodes load.
abbrev pub fields_of : List ℕ → NodePool → Map ℕ → Map ℕ
fields_of [] p m = m
fields_of (i ∷ nodes) p m = fields_of nodes p (number_field (c_string (node_at p i).field_name) m)

-- A write that keeps a node's name keeps every node's.
set-field_name :
    (nodes : List Node) (i j : ℕ) (n : Node)
    → n.field_name ≡ (get_or nodes i fresh_node).field_name
    → (get_or (set nodes i n) j fresh_node).field_name ≡ (get_or nodes j fresh_node).field_name
set-field_name [] i j n h = refl
set-field_name (x ∷ nodes) zero zero n h = h
set-field_name (x ∷ nodes) zero (suc j) n h = refl
set-field_name (x ∷ nodes) (suc i) zero n h = refl
set-field_name (x ∷ nodes) (suc i) (suc j) n h = set-field_name nodes i j n h

set_field_idx-name :
    (i j : ℕ) (x : ℤ) (p : NodePool)
    → (node_at (set_field_idx i x p) j).field_name ≡ (node_at p j).field_name
unfolding set_field_idx
set_field_idx-name i j x p =
    set-field_name p.storage i j (record (node_at p i) { field_idx = x }) refl

fields_of-set_field_idx :
    (nodes : List ℕ) (i : ℕ) (x : ℤ) (p : NodePool) (m : Map ℕ)
    → fields_of nodes (set_field_idx i x p) m ≡ fields_of nodes p m
fields_of-set_field_idx [] i x p m = refl
fields_of-set_field_idx (j ∷ nodes) i x p m =
    rw (set_field_idx-name i j x p)
      (fields_of-set_field_idx nodes i x p (number_field (c_string (node_at p j).field_name) m))

length-assign :
    (name : Name) (v : ℕ) (m : Map ℕ) → find name m ≡ none → length (assign name v m) ≡ length m + 1
unfolding find assign
length-assign name v [] e = refl
length-assign name v ((k, w) ∷ m) e = elim (Bool-cases (name_eq k name)) [
  | inl here ↦ absurd (cc (here, e))
  | inr there ↦ let e' = rw there at e in rw there (omega (arith, length-assign name v m e'))
]

length-number_field :
    (name : Name) (m : Map ℕ)
    → (find name m ≡ none) × (length (number_field name m) ≡ length m + 1)
      ⊎ ((k : ℕ) × (find name m ≡ some k) × (number_field name m ≡ m))
unfolding number_field
length-number_field name m = elim (Option-cases (find name m)) [
  | inl e ↦ inl (e, rw (e, number_field) (length-assign name (length m) m e))
  | inr (k, e) ↦ inr (k, e, rw (e, number_field) refl)
]

length-fields_of :
    (nodes : List ℕ) (p : NodePool) (m : Map ℕ) → length m ≤ length (fields_of nodes p m)
length-fields_of [] p m = omega arith
length-fields_of (i ∷ nodes) p m =
    let name = c_string (node_at p i).field_name in
    let rest = length-fields_of nodes p (number_field name m) in
    elim (length-number_field name m) [
      | inl (e, more) ↦ omega (arith, rest, more)
      | inr (k, e, same) ↦ omega (arith, rest, ap length same)
    ]

pub number_fields_lem :
    (nodes : List ℕ) (m : Map ℕ) (p : NodePool)
    → length m ≤ 8
    → (number_fields nodes m p).0 ≡ leb (length (fields_of nodes p m)) 8
unfolding number_fields
number_fields_lem [] m p h = ground (arith, h)
number_fields_lem (i ∷ nodes) m p h =
    let name = c_string (node_at p i).field_name in
    let m' = number_field name m in
    let q = set_field_idx i (index_of name m') p in
    let same = fields_of-set_field_idx nodes i (index_of name m') p m' in
    elim (length-number_field name m) [
      | inr (k, e, old) ↦
          let small : length m' ≤ 8 = omega (arith, h, ap length old) in
          rw (number_fields, e)
            (number_fields_lem nodes m' q small ∙ ap (λ (n : Map ℕ). leb (length n) 8) same)
      | inl (e, more) ↦ elim (dec_lt (length m) 8) [
        | yes room ↦
            let small : length m' ≤ 8 = omega (arith, more, room) in
            let roomy : leb 8 (length m) ≡ false = ground (arith, room) in
            rw (number_fields, e, roomy)
              (number_fields_lem nodes m' q small ∙ ap (λ (n : Map ℕ). leb (length n) 8) same)
        | no full ↦
            let grown = length-fields_of nodes p m' in
            let shut : leb 8 (length m) ≡ true = ground (arith, full) in
            let many : leb (length (fields_of nodes p m')) 8 ≡ false =
              ground (arith, grown, more, full) in
            rw (number_fields, e, shut, many) refl
      ]
    ]
