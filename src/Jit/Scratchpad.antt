-- ===== src/Jit/Scratchpad.antt =====
-- `ScratchpadManager` of src/jit/compiler.cpp: the slots for intermediate bit planes.
pub mod Slots
use apex_engine.Common.{
  ℕ, zero, suc, ◌+◌, ℤ, pos, negsuc, Bool, true, false, List, get_or, set, replicate, ltb,
  if◌then◌else◌,
}

abbrev pub max_slots : ℕ
max_slots = 8

-- `used_`
abbrev pub ScratchpadManager : Type 0
ScratchpadManager = List Bool

abbrev pub new_scratchpad : ScratchpadManager
new_scratchpad = replicate max_slots false

-- The loop of `alloc_slot` from slot `i` on, `left` slots to go; -1 where none is free.
unfoldable pub alloc_from : (left i : ℕ) → ScratchpadManager → ℤ × ScratchpadManager
alloc_from zero i used = (negsuc 0, used)
alloc_from (suc left) i used =
    let rest = alloc_from left (i + 1) used in
    if get_or used i false then rest else (pos i, set used i true)

unfoldable pub alloc_slot : ScratchpadManager → ℤ × ScratchpadManager
alloc_slot used = alloc_from max_slots 0 used

-- `if (id >= 0 && id < MAX_SLOTS) used_[id] = false;`
unfoldable pub free_slot : ℤ → ScratchpadManager → ScratchpadManager
free_slot (pos i) used = if ltb i max_slots then set used i false else used
free_slot (negsuc n) used = used
