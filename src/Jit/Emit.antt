-- ===== src/Jit/Emit.antt =====
-- Parts of src/jit/compiler.cpp that both compilers of expressions use: constants as machine code, and
-- the numbers given to the fields.
pub mod Constants
use Prim.Native.Nat.{bit_and}
use apex_engine.Common.{
  ℕ, zero, suc, ◌+◌, ◌-◌, ◌*◌, ◌%◌, ℤ, pos, negsuc, List, [], ◌∷◌, ◌++◌, Option, none, some, length,
  set, ◌==◌, if◌then◌else◌, Name, Map, find, assign,
}
use apex_engine.Word.{shr, two64}
use apex_engine.Arm64.{Instr, movz, movk}
use apex_engine.Ir.{Node, NodePool, node_at}

-- `static_cast<uint64_t>` of an `int64_t`
unfoldable pub to_u64 : ℤ → ℕ
to_u64 (pos n) = n % two64
to_u64 (negsuc n) = two64 - suc (n % two64)

-- `emit_mov_imm64`
unfoldable pub emit_mov_imm64 : (dst imm : ℕ) → List Instr
emit_mov_imm64 dst imm =
    movz dst (bit_and imm 0xffff) 0
    ∷ movk dst (bit_and (shr imm 16) 0xffff) 16
    ∷ movk dst (bit_and (shr imm 32) 0xffff) 32
    ∷ movk dst (bit_and (shr imm 48) 0xffff) 48
    ∷ []

-- `std::string(load_node->field_name)`: the characters up to the zero.
unfoldable pub c_string : List ℕ → Name
c_string [] = []
c_string (c ∷ cs) = if c == 0 then [] else c ∷ c_string cs

-- `field_to_idx` with the name entered, if it is not there.
unfoldable pub number_field : Name → Map ℕ → Map ℕ
number_field name m = elim (find name m) [ none ↦ assign name (length m) m | some k ↦ m ]

-- `load_node->field_idx = field_to_idx[field_name]`
unfoldable pub set_field_idx : ℕ → ℤ → NodePool → NodePool
set_field_idx i idx p = record p {
  storage = set p.storage i (record (node_at p i) { field_idx = idx });
}

unfoldable pub index_of : Name → Map ℕ → ℤ
index_of name m = elim (find name m) [ none ↦ pos 0 | some k ↦ pos k ]

-- The loop over `load_nodes` in `compile_scalar_expression`.
unfoldable pub assign_fields : List ℕ → Map ℕ → NodePool → NodePool
assign_fields [] m p = p
assign_fields (i ∷ load_nodes) m p =
    let name = c_string (node_at p i).field_name in
    let m' = number_field name m in
    assign_fields load_nodes m' (set_field_idx i (index_of name m') p)
