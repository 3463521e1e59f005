-- ===== src/Jit/Expression/Constants.antt =====
-- The planes that `compile_expression` gives to the constants.
use apex_engine.Common.{
  ℕ, zero, suc, ◌<◌, ◌≡◌, ◌≢◌, refl, sym, ◌∙◌, ap, arith, ℤ, negsuc, List, [], ◌∷◌, some, get_or,
  get_elem?, ℕ_discrete, Option-cases, inl, inr,
}
use apex_engine.Word.{IsU64, add64, shl64, test_bit}
use apex_engine.Ir.{Node, NodePool, node_at}
use apex_engine.Jit.Emit.{to_u64, set_field_idx}
use apex_engine.Jit.ConstPool.{ConstPlanes, ConstPool, find_planes, get_or_create}
use apex_engine.Jit.ConstPool.Planes.{
  IsFilled, find_planes-IsFilled, get_or_create-planes, get_or_create_old, get_or_create_new,
  find_planes-here, planes-bits,
}
use apex_engine.Jit.Scalar.Row.{Call, Untouched}
use apex_engine.Jit.Expression.{planes_of}
use apex_engine.Jit.Expression.Compile.{create_planes}
use apex_engine.Jit.Expression.Writes.{set_field_idx-SamePart}
use apex_engine.Jit.Expression.Operands.{HoldsPlanes}

-- What `get_or_create` answers is in the pool behind it.
get_or_create-found :
    (fresh : ℕ → ℕ) (value : ℤ) (pools : ConstPool)
    → let (planes, after) = get_or_create fresh value pools in find_planes value after ≡ some planes
get_or_create-found fresh value pools = elim (Option-cases (find_planes value pools)) [
  | inr (planes, e) ↦ rw (get_or_create_old fresh value planes pools e) e
  | inl e ↦ rw (get_or_create_new fresh value pools e) (find_planes-here value _ pools)
]

-- Node `j` has the planes of the constant in the pool.
pub record HasPlanesOf (value : ℤ) (j : ℕ) (constants : List (ℕ × ℕ)) (pools : ConstPool)
    : Type 0 where
  pub planes : ConstPlanes
  pub found : find_planes value pools ≡ some planes
  pub address : planes_of j constants ≡ planes.address

-- After one step of the loop: the constant's own node, and the others.
own_planes :
    (fresh : ℕ → ℕ) (value : ℤ) (i : ℕ) (constants : List (ℕ × ℕ)) (pools : ConstPool)
    → let (planes, after) = get_or_create fresh value pools in
      HasPlanesOf value i ((i, planes.address) ∷ constants) after
unfolding planes_of
own_planes fresh value i constants pools = record {
  planes = (get_or_create fresh value pools).0;
  found = get_or_create-found fresh value pools;
  address = ground arith;
}

other_planes :
    (fresh : ℕ → ℕ) (value new : ℤ) (i j : ℕ) (constants : List (ℕ × ℕ)) (pools : ConstPool)
    → IsFilled pools
    → i ≢ j
    → HasPlanesOf value j constants pools
    → let (planes, after) = get_or_create fresh new pools in
      HasPlanesOf value j ((i, planes.address) ∷ constants) after
unfolding planes_of
other_planes fresh value new i j constants pools filled apart known = record {
  planes = known.planes;
  found = (get_or_create-planes fresh new pools filled).3 value known.planes known.found;
  address = ground (arith, apart, known.address);
}

-- The value of a constant is not changed.
abbrev pub const_of : NodePool → ℕ → ℤ
const_of p i = (node_at p i).const_value

const_kept : (i j : ℕ) (p : NodePool) → const_of (set_field_idx i (negsuc 1) p) j ≡ const_of p j
const_kept i j p =
    (set_field_idx-SamePart (λ (n : Node). n.const_value) (λ n x. refl) i (negsuc 1) p).parts j

module _ (fresh : ℕ → ℕ) (value : ℤ) (j : ℕ) where
  create_planes-keeps :
      (nodes : List ℕ) (constants : List (ℕ × ℕ)) (p : NodePool) (pools : ConstPool)
      → IsFilled pools
      → const_of p j ≡ value
      → HasPlanesOf value j constants pools
      → let (constants', q, after) = create_planes fresh nodes constants p pools in
        HasPlanesOf value j constants' after
  unfolding create_planes
  create_planes-keeps [] constants p pools filled same known = known
  create_planes-keeps (i ∷ nodes) constants p pools filled same known =
      let (planes, after) = get_or_create fresh (const_of p i) pools in
      let next : HasPlanesOf value j ((i, planes.address) ∷ constants) after =
        elim (ℕ_discrete i j) [
          | yes here ↦
              let own = own_planes fresh (const_of p i) i constants pools in
              let value_here : const_of p i ≡ value = ap (const_of p) here ∙ same in
              rw (sym here, sym value_here) own
          | no there ↦
              other_planes fresh value (const_of p i) i j constants pools filled there known
        ] in
      create_planes-keeps nodes ((i, planes.address) ∷ constants) (set_field_idx i (negsuc 1) p)
        after (get_or_create-planes fresh (const_of p i) pools filled).0 (const_kept i j p ∙ same)
        next

  -- The constants of a list have their planes.
  pub create_planes-HasPlanesOf :
      (nodes : List ℕ) (constants : List (ℕ × ℕ)) (p : NodePool) (pools : ConstPool) (k : ℕ)
      → get_elem? nodes k ≡ some j
      → IsFilled pools
      → const_of p j ≡ value
      → let (constants', q, after) = create_planes fresh nodes constants p pools in
        HasPlanesOf value j constants' after
  unfolding create_planes
  create_planes-HasPlanesOf [] constants p pools k g filled same = absurd (cc g)
  create_planes-HasPlanesOf (i ∷ nodes) constants p pools zero g filled same =
      let here : i ≡ j = cc g in
      let (planes, after) = get_or_create fresh (const_of p i) pools in
      let own = own_planes fresh (const_of p i) i constants pools in
      let value_here : const_of p i ≡ value = ap (const_of p) here ∙ same in
      let next : HasPlanesOf value j ((i, planes.address) ∷ constants) after =
        rw (sym here, sym value_here) own in
      create_planes-keeps nodes ((i, planes.address) ∷ constants) (set_field_idx i (negsuc 1) p)
        after (get_or_create-planes fresh (const_of p i) pools filled).0 (const_kept i j p ∙ same)
        next
  create_planes-HasPlanesOf (i ∷ nodes) constants p pools (suc k) g filled same =
      let (planes, after) = get_or_create fresh (const_of p i) pools in
      create_planes-HasPlanesOf nodes ((i, planes.address) ∷ constants)
        (set_field_idx i (negsuc 1) p) after k g
        (get_or_create-planes fresh (const_of p i) pools filled).0 (const_kept i j p ∙ same)

module _ (fresh : ℕ → ℕ) where
  pub create_planes-IsFilled :
      (nodes : List ℕ) (constants : List (ℕ × ℕ)) (p : NodePool) (pools : ConstPool)
      → IsFilled pools
      → IsFilled (create_planes fresh nodes constants p pools).2
  unfolding create_planes
  create_planes-IsFilled [] constants p pools filled = filled
  create_planes-IsFilled (i ∷ nodes) constants p pools filled =
      create_planes-IsFilled nodes _ _ _ (get_or_create-planes fresh (const_of p i) pools filled).0

-- Memory holds the planes of every constant of the pool, outside the scratchpad.
pub record HoldsConstants (call : Call) (pools : ConstPool) : Type 0 where
  pub addresses :
      (value : ℤ) (planes : ConstPlanes)
      → find_planes value pools ≡ some planes
      → IsU64 planes.address
  pub words :
      (value : ℤ) (planes : ConstPlanes) (k : ℕ)
      → find_planes value pools ≡ some planes
      → k < 64
      → (call.memory (add64 planes.address (shl64 k 3)) ≡ get_or planes.bit_planes k 0)
        × Untouched call (add64 planes.address (shl64 k 3))

-- The planes of a constant in memory.
pub constant-HoldsPlanes :
    (call : Call) (value : ℤ) (j : ℕ) (constants : List (ℕ × ℕ)) (pools : ConstPool)
    → IsFilled pools
    → HoldsConstants call pools
    → HasPlanesOf value j constants pools
    → IsU64 (planes_of j constants) × HoldsPlanes call (planes_of j constants) (λ r. to_u64 value)
constant-HoldsPlanes call value j constants pools filled memory known =
    let filled_planes = find_planes-IsFilled value known.planes pools filled known.found in
    rw (known.address) (
      memory.addresses value known.planes known.found,
      record {
        planes = λ k h. record {
          bits = λ r hr.
              ap (λ (w : ℕ). test_bit w r) (memory.words value known.planes k known.found h).0
              ∙ ap (λ (ws : List ℕ). test_bit (get_or ws k 0) r) filled_planes
              ∙ planes-bits value k r h hr;
        };
        planes_kept = λ k h. (memory.words value known.planes k known.found h).1;
      },
    )
