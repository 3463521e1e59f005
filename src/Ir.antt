-- ===== src/Ir.antt =====
-- include/apex/jit/ir.hpp and src/jit/jit.cpp: expression trees and their builders. A `Node*` is an
-- index into the pool, `none` for null. Characters are numbers.
pub mod Acyclic
pub mod Links
use apex_engine.Common.{
  ℕ, zero, suc, ◌+◌, ℤ, pos, negsuc, List, [], ◌∷◌, ◌++◌, Option, none, some, get_or, set,
  replicate, ltb, if◌then◌else◌, ◌>>=◌, ◌==◌,
}

pub data NodeKind : Type 0 where
  load const add sub gt lt eq and or not_ select lsl lsr : NodeKind

pub data ResultKind : Type 0 where
  bitplane bitmask : ResultKind

abbrev pub Pointer : Type 0
Pointer = Option ℕ

pub record Node : Type 0 where
  pub kind : NodeKind
  pub result_kind : ResultKind
  pub field_name : List ℕ
  pub const_value : ℤ
  pub shift_amount : ℤ
  pub left : Pointer
  pub right : Pointer
  pub cond : Pointer
  pub slot_id : ℤ
  pub field_idx : ℤ
  pub carry_reg : ℤ

-- A node as its member initialisers leave it; `kind` has none.
abbrev pub fresh_node : Node
fresh_node = record {
  kind = load;
  result_kind = bitplane;
  field_name = replicate 64 0;
  const_value = pos 0;
  shift_amount = pos 0;
  left = none;
  right = none;
  cond = none;
  slot_id = negsuc 0;
  field_idx = negsuc 0;
  carry_reg = negsuc 0;
}

abbrev pub max_nodes : ℕ
max_nodes = 128

pub record NodePool : Type 0 where
  pub storage : List Node
  pub next_idx : ℕ

abbrev pub node_at : NodePool → ℕ → Node
node_at p i = get_or p.storage i fresh_node

-- `g_pool`, as a thread starts with it.
abbrev pub new_pool : NodePool
new_pool = record { storage = replicate max_nodes fresh_node; next_idx = 0 }

unfoldable pub alloc : NodePool → Pointer × NodePool
alloc p =
    if ltb p.next_idx max_nodes
    then (some p.next_idx, record p { next_idx = p.next_idx + 1 })
    else (none, p)

-- `reset` keeps the nodes.
unfoldable pub reset : NodePool → NodePool
reset p = record p { next_idx = 0 }

-- What every builder does: `alloc`, the check for null, and assignments to the node.
unfoldable pub build : (Node → Node) → NodePool → Pointer × NodePool
build assign p =
    let (n, q) = alloc p in
    elim n [
      | none ↦ (none, q)
      | some i ↦ (some i, record q { storage = set q.storage i (assign (node_at q i)) })
    ]

-- `strncpy(dst, src, count)`: `none` where the characters end without a zero.
unfoldable pub strncpy : ℕ → List ℕ → Option (List ℕ)
strncpy zero source = some []
strncpy (suc count) [] = none
strncpy (suc count) (c ∷ source) =
    let rest : Option (List ℕ) = (do copied ← strncpy count source; some (c ∷ copied)) in
    if c == 0 then some (replicate (suc count) 0) else rest

abbrev pub as_load : List ℕ → Node → Node
as_load copied n = record n {
  kind = load;
  result_kind = bitplane;
  field_name = copied ++ (get_or n.field_name 63 0 ∷ []);
}

-- `Load`: `source` are the characters in memory from `field_name.data()` on.
unfoldable pub load_node : List ℕ → NodePool → Option (Pointer × NodePool)
load_node source p =
    let (n, q) = alloc p in
    elim n [
      | none ↦ some (none, q)
      | some i ↦ do copied ← strncpy 63 source; some (build (as_load copied) p)
    ]

unfoldable pub const_node : ℤ → NodePool → Pointer × NodePool
const_node value =
    build (λ n. record n { kind = const; result_kind = bitplane; const_value = value })

unfoldable pub add_node : Pointer → Pointer → NodePool → Pointer × NodePool
add_node a b = build (λ n. record n { kind = add; result_kind = bitplane; left = a; right = b })

pub sub_node : Pointer → Pointer → NodePool → Pointer × NodePool
sub_node a b = build (λ n. record n { kind = sub; result_kind = bitplane; left = a; right = b })

unfoldable pub gt_node : Pointer → Pointer → NodePool → Pointer × NodePool
gt_node a b = build (λ n. record n { kind = gt; result_kind = bitmask; left = a; right = b })

-- `LT(a, b) = GT(b, a)`
pub lt_node : Pointer → Pointer → NodePool → Pointer × NodePool
lt_node a b = gt_node b a

pub eq_node : Pointer → Pointer → NodePool → Pointer × NodePool
eq_node a b = build (λ n. record n { kind = eq; result_kind = bitmask; left = a; right = b })

pub and_node : Pointer → Pointer → NodePool → Pointer × NodePool
and_node a b = build (λ n. record n { kind = and; result_kind = bitmask; left = a; right = b })

pub or_node : Pointer → Pointer → NodePool → Pointer × NodePool
or_node a b = build (λ n. record n { kind = or; result_kind = bitmask; left = a; right = b })

unfoldable pub not_node : Pointer → NodePool → Pointer × NodePool
not_node a = build (λ n. record n { kind = not_; result_kind = bitmask; left = a })

pub select_node : Pointer → Pointer → Pointer → NodePool → Pointer × NodePool
select_node c a b =
    build (λ n. record n { kind = select; result_kind = bitmask; cond = c; left = a; right = b })

pub lsl_node : Pointer → ℤ → NodePool → Pointer × NodePool
lsl_node a shift =
    build (λ n. record n { kind = lsl; result_kind = bitplane; left = a; shift_amount = shift })

pub lsr_node : Pointer → ℤ → NodePool → Pointer × NodePool
lsr_node a shift =
    build (λ n. record n { kind = lsr; result_kind = bitplane; left = a; shift_amount = shift })
