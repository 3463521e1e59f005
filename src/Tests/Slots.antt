-- ===== src/Tests/Slots.antt =====
-- The scratchpad's slots at concrete inputs.
use apex_engine.Common.{◌≡◌, ◌<◌, refl, arith, ◌∷◌, true, false, replicate, get_or, pos}
use apex_engine.Jit.Scratchpad.{ScratchpadManager, max_slots, alloc_from, alloc_slot, free_slot}
use apex_engine.Jit.Scratchpad.Slots.{alloc_slot-free_slot, alloc_slot_full}

abbrev one_used : ScratchpadManager
one_used = true ∷ replicate 7 false

-- Slot 1 is given out where slot 0 is in use.
alloc_slot-free_slot_example :
    (1 < max_slots)
    × (get_or one_used 1 false ≡ false)
    × (get_or (alloc_slot one_used).1 1 false ≡ true)
    × (free_slot (pos 1) (alloc_slot one_used).1 ≡ one_used)
unfolding alloc_slot alloc_from
alloc_slot-free_slot_example = alloc_slot-free_slot one_used 1 refl refl

abbrev all_used : ScratchpadManager
all_used = replicate 8 true

-- With all slots in use, slot 3 is.
alloc_slot_full_example : get_or all_used 3 false ≡ true
unfolding alloc_slot alloc_from
alloc_slot_full_example = alloc_slot_full all_used 3 refl (omega arith)
