-- ===== src/Jit/Scratchpad/Slots.antt =====
-- `alloc_slot` gives out each slot once.
use apex_engine.Common.{
  ℕ, zero, suc, ◌+◌, ◌<◌, ◌≤◌, ◌≡◌, ◌⊎◌, inl, inr, refl, arith, ℤ, pos, negsuc, Bool, true, false,
  get_or, set, length, get_or-set_self, lt→ltb, [], ◌∷◌, Bool-cases, ◌∙◌, ap, sym, ℕ_discrete,
}
use apex_engine.Jit.Scratchpad.{max_slots, ScratchpadManager, alloc_from, alloc_slot, free_slot}

-- Slot `k` is the first that is free, from `i` on, or all are used up to `n`.
pub alloc_from_lem :
    (left i n : ℕ) (used : ScratchpadManager)
    → i + left ≡ n
    → ((k : ℕ) × (i ≤ k)
        × (k < n)
        × (get_or used k false ≡ false)
        × (alloc_from left i used ≡ (pos k, set used k true)))
      ⊎ (((k : ℕ) → i ≤ k → k < n → get_or used k false ≡ true)
          × (alloc_from left i used ≡ (negsuc 0, used)))
unfolding alloc_from
alloc_from_lem zero i n used e = inr ((λ k p q. absurd (omega arith)), refl)
alloc_from_lem (suc left) i n used e = elim (Bool-cases (get_or used i false)) [
  | inr unused ↦ inl (i, omega arith, omega arith, unused, rw unused refl)
  | inl taken ↦ elim (alloc_from_lem left (i + 1) n used (omega arith)) [
    | inl (k, p, q, f, r) ↦ inl (k, omega arith, q, f, rw taken r)
    | inr (all, r) ↦ inr (
      (λ k p q. elim (ℕ_discrete i k) [
        | yes here ↦ rw (sym here) taken
        | no there ↦ all k (omega arith) q
      ]),
      rw taken r,
    )
  ]
]

set_back :
    (used : ScratchpadManager) (k : ℕ)
    → k < length used
    → get_or used k false ≡ false
    → set (set used k true) k false ≡ used
set_back [] k h e = absurd (omega arith)
set_back (x ∷ used) zero h e = ap (λ (y : Bool). y ∷ used) (sym e)
set_back (x ∷ used) (suc k) h e =
    ap (λ (u : ScratchpadManager). x ∷ u) (set_back used k (omega arith) e)

id_of : ℤ → ℕ
id_of (pos k) = k
id_of (negsuc k) = k

-- A slot that `alloc_slot` gives out is one of the eight, was free, is in use after it, and
-- `free_slot` of it brings the slots back to what they were.
pub alloc_slot-free_slot :
    (used : ScratchpadManager) (k : ℕ)
    → length used ≡ max_slots
    → (alloc_slot used).0 ≡ pos k
    → (k < max_slots)
      × (get_or used k false ≡ false)
      × (get_or (alloc_slot used).1 k false ≡ true)
      × (free_slot (pos k) (alloc_slot used).1 ≡ used)
unfolding alloc_slot free_slot id_of
alloc_slot-free_slot used k size given = elim (alloc_from_lem max_slots 0 max_slots used refl) [
  | inl (j, p, q, unused, r) ↦
      let same : j ≡ k = ap id_of (sym (ap (λ (s : ℤ × ScratchpadManager). s.0) r) ∙ given) in
      let after : (alloc_slot used).1 ≡ set used k true =
        ap (λ (s : ℤ × ScratchpadManager). s.1) r ∙ ap (λ (i : ℕ). set used i true) same in
      let free : get_or used k false ≡ false = rw (sym same) unused in
      let room : k < max_slots = omega (arith, same, q) in
      (
        room,
        free,
        rw after (get_or-set_self used k true false (omega (arith, size))),
        rw (after, lt→ltb k max_slots room) (set_back used k (omega (arith, size)) free),
      )
  | inr (all, r) ↦ absurd (cc (ap (λ (s : ℤ × ScratchpadManager). s.0) r, given))
]

-- If `alloc_slot` gives out no slot, each of the eight is in use.
pub alloc_slot_full :
    (used : ScratchpadManager) (i : ℕ)
    → (alloc_slot used).0 ≡ negsuc 0
    → i < max_slots
    → get_or used i false ≡ true
unfolding alloc_slot
alloc_slot_full used i given h = elim (alloc_from_lem max_slots 0 max_slots used refl) [
  | inl (j, p, q, unused, r) ↦ absurd (cc (ap (λ (s : ℤ × ScratchpadManager). s.0) r, given))
  | inr (all, r) ↦ all i (omega arith) h
]
