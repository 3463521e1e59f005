-- ===== src/Jit/ConstPool/Planes.antt =====
-- The planes of a constant are those of a column that holds it in every row, and stay.
use apex_engine.Common.{
  ℕ, zero, suc, ◌+◌, ◌%◌, ◌<◌, ◌≡◌, refl, sym, ◌∙◌, ap, arith, ℤ, pos, negsuc, true, not, List, [],
  ◌∷◌, none, some, get_or, if◌then◌else◌, inl, inr, Bool-cases, length, Option-cases,
}
use apex_engine.Word.{test_bit, ones64, two64}
use apex_engine.Word.Shift.{test_bit-mod, test_bit-ones64}
use apex_engine.Word.Bitwise.{test_bit-zero}
use apex_engine.Word.Carry.{test_bit-complement}
use apex_engine.Jit.Emit.{to_u64}
use apex_engine.Jit.ConstPool.{
  int_eq, int_bit, planes_from, ConstPlanes, ConstPool, find_planes, get_or_create,
}

get_or-planes_from :
    (left bit k : ℕ) (value : ℤ)
    → k < left
    → get_or (planes_from left bit value) k 0 ≡ (if int_bit value (bit + k) then ones64 else 0)
unfolding planes_from
get_or-planes_from zero bit k value h = absurd (omega arith)
get_or-planes_from (suc left) bit zero value h =
    ap (λ (n : ℕ). if int_bit value n then ones64 else 0) (omega arith)
get_or-planes_from (suc left) bit (suc k) value h =
    get_or-planes_from left (bit + 1) k value (omega arith)
    ∙ ap (λ (n : ℕ). if int_bit value n then ones64 else 0) (omega arith)

int_bit-to_u64 : (value : ℤ) (i : ℕ) → i < 64 → int_bit value i ≡ test_bit (to_u64 value) i
unfolding int_bit to_u64
int_bit-to_u64 (pos n) i h = sym (test_bit-mod 64 n i ∙ ground (arith, h))
int_bit-to_u64 (negsuc n) i h = sym (
    test_bit-complement 64 (n % two64) i h (omega arith)
    ∙ ap not (test_bit-mod 64 n i ∙ ground (arith, h)))

int_eq-eq : (v w : ℤ) → int_eq v w ≡ true → v ≡ w
unfolding int_eq
int_eq-eq (pos m) (pos n) h = ap pos (ground (arith, h))
int_eq-eq (pos m) (negsuc n) h = cc
int_eq-eq (negsuc m) (pos n) h = cc
int_eq-eq (negsuc m) (negsuc n) h = ap negsuc (ground (arith, h))

int_eq_refl : (v : ℤ) → int_eq v v ≡ true
unfolding int_eq
int_eq_refl (pos m) = ground arith
int_eq_refl (negsuc m) = ground arith

-- Every entry has the planes of its key.
pub data IsFilled : ConstPool → Type 0 where
  no_planes : IsFilled []
  more_planes :
      {value : ℤ} {planes : ConstPlanes} {pools : ConstPool}
      → planes.bit_planes ≡ planes_from 64 0 value
      → IsFilled pools
      → IsFilled ((value, planes) ∷ pools)

pub find_planes-IsFilled :
    (value : ℤ) (planes : ConstPlanes) (pools : ConstPool)
    → IsFilled pools
    → find_planes value pools ≡ some planes
    → planes.bit_planes ≡ planes_from 64 0 value
unfolding find_planes
find_planes-IsFilled value planes [] no_planes e = cc
find_planes-IsFilled value planes ((v, found) ∷ pools) (more_planes made filled) e =
    ground (arith, made, e, int_eq-eq v value, find_planes-IsFilled value planes pools filled)

pub planes-bits :
    (value : ℤ) (k row : ℕ)
    → k < 64
    → row < 64
    → test_bit (get_or (planes_from 64 0 value) k 0) row ≡ test_bit (to_u64 value) k
planes-bits value k row hk hr =
    let plane = get_or-planes_from 64 0 k value hk in
    let ones : test_bit ones64 row ≡ true = test_bit-ones64 row ∙ ground (arith, hr) in
    let bit = int_bit-to_u64 value k hk in
    let zero_add : 0 + k ≡ k = omega arith in
    ap (λ (n : ℕ). test_bit n row)
      (plane ∙ ap (λ (n : ℕ). if int_bit value n then ones64 else 0) zero_add)
    ∙ ground (arith, ones, test_bit-zero row, bit)

abbrev pub made : (ℕ → ℕ) → ℤ → ConstPool → ConstPlanes
made fresh value pools = record {
  address = fresh (length pools);
  bit_planes = planes_from 64 0 value;
}

pub get_or_create_old :
    (fresh : ℕ → ℕ) (value : ℤ) (planes : ConstPlanes) (pools : ConstPool)
    → find_planes value pools ≡ some planes
    → get_or_create fresh value pools ≡ (planes, pools)
unfolding get_or_create
get_or_create_old fresh value planes pools e = rw (e, get_or_create) refl

pub get_or_create_new :
    (fresh : ℕ → ℕ) (value : ℤ) (pools : ConstPool)
    → find_planes value pools ≡ none
    → get_or_create fresh value pools
      ≡ (made fresh value pools, (value, made fresh value pools) ∷ pools)
unfolding get_or_create
get_or_create_new fresh value pools e = rw (e, get_or_create) refl

pub find_planes-here :
    (value : ℤ) (planes : ConstPlanes) (pools : ConstPool)
    → find_planes value ((value, planes) ∷ pools) ≡ some planes
unfolding find_planes
find_planes-here value planes pools = rw (int_eq_refl value) refl

find_planes-there :
    (value other : ℤ) (planes old : ConstPlanes) (pools : ConstPool)
    → find_planes value pools ≡ none
    → find_planes other pools ≡ some old
    → find_planes other ((value, planes) ∷ pools) ≡ some old
unfolding find_planes
find_planes-there value other planes old pools e o = elim (Bool-cases (int_eq value other)) [
  | inl same ↦ cc (e, o, int_eq-eq value other same)
  | inr apart ↦ rw apart o
]

-- What `get_or_create` answers is filled, is what it answers from then on, without a change to the
-- pool, and leaves in place the planes of every other constant.
pub get_or_create-planes :
    (fresh : ℕ → ℕ) (value : ℤ) (pools : ConstPool)
    → IsFilled pools
    → let (planes, after) = get_or_create fresh value pools in
      IsFilled after
      × ((k row : ℕ)
          → k < 64
          → row < 64
          → test_bit (get_or planes.bit_planes k 0) row ≡ test_bit (to_u64 value) k)
      × ((later : ℕ → ℕ) → get_or_create later value after ≡ (planes, after))
      × ((other : ℤ) (old : ConstPlanes)
          → find_planes other pools ≡ some old
          → find_planes other after ≡ some old)
get_or_create-planes fresh value pools filled = elim (Option-cases (find_planes value pools)) [
  | inr (planes, e) ↦ rw (get_or_create_old fresh value planes pools e) (
    filled,
    (λ k row hk hr.
        ap (λ (ps : List ℕ). test_bit (get_or ps k 0) row)
          (find_planes-IsFilled value planes pools filled e)
        ∙ planes-bits value k row hk hr),
    (λ later. get_or_create_old later value planes pools e),
    (λ other old o. o),
  )
  | inl e ↦
      let planes = made fresh value pools in
      let after = (value, planes) ∷ pools in
      rw (get_or_create_new fresh value pools e) (
        more_planes refl filled,
        (λ k row hk hr. planes-bits value k row hk hr),
        (λ later. get_or_create_old later value planes after (find_planes-here value planes pools)),
        (λ other old o. find_planes-there value other planes old pools e o),
      )
]
