-- ===== src/Common/Maps.antt =====
-- Names as byte strings, and hash maps keyed by names as association lists. The order in which a
-- map is walked is not fixed by C++, so nothing here depends on it.
use Prim.Native.Nat.{ℕ}
use mathlib.Core.Path.{◌≡◌, refl}
use mathlib.Core.Bool.{Bool, true, false, ◌&&◌}
use mathlib.Core.Option.{Option, none, some}
use mathlib.Core.List.{List, [], ◌∷◌}
use native.Mathlib.Omega.{arith}
use apex_engine.Common.Tests.{◌==◌, if◌then◌else◌}

abbrev pub Name : Type 0
Name = List ℕ

unfoldable pub name_eq : Name → Name → Bool
name_eq [] [] = true
name_eq [] (y ∷ ys) = false
name_eq (x ∷ xs) [] = false
name_eq (x ∷ xs) (y ∷ ys) = x == y && name_eq xs ys

pub name_eq_refl : (k : Name) → name_eq k k ≡ true
unfolding name_eq
name_eq_refl [] = refl
name_eq_refl (x ∷ xs) = ground (arith, name_eq_refl xs)

pub name_eq→eq : (j k : Name) → name_eq j k ≡ true → j ≡ k
unfolding name_eq
name_eq→eq [] [] h = refl
name_eq→eq [] (y ∷ ys) h = cc
name_eq→eq (x ∷ xs) [] h = cc
name_eq→eq (x ∷ xs) (y ∷ ys) h = ground (arith, name_eq→eq xs ys)

abbrev pub Map {ℓ} : Type ℓ → Type ℓ
Map V = List (Name × V)

module _ {ℓ} {V : Type ℓ} where
  unfoldable pub find : Name → Map V → Option V
  find k [] = none
  find k ((j, v) ∷ m) = if name_eq j k then some v else find k m

  -- `emplace`: an entry that is there stays.
  unfoldable pub emplace : Name → V → Map V → Map V
  emplace k v m = elim (find k m) [ none ↦ (k, v) ∷ m | some w ↦ m ]

  -- `m[k] = v`
  unfoldable pub assign : Name → V → Map V → Map V
  assign k v [] = (k, v) ∷ []
  assign k v ((j, w) ∷ m) = if name_eq j k then (j, v) ∷ m else (j, w) ∷ assign k v m

  -- The value that `emplace` leaves at its key.
  abbrev pub kept : Option V → V → V
  kept none v = v
  kept (some w) v = w

  pub find-emplace :
      (j k : Name) (v : V) (m : Map V)
      → find j (emplace k v m) ≡ (if name_eq k j then some (kept (find k m) v) else find j m)
  unfolding find emplace
  find-emplace j k v m = ground (arith, name_eq→eq k j)

  pub find-assign :
      (j k : Name) (v : V) (m : Map V)
      → find j (assign k v m) ≡ (if name_eq k j then some v else find j m)
  unfolding find assign
  find-assign j k v [] = refl
  find-assign j k v ((i, w) ∷ m) =
      ground
        (arith, name_eq→eq i k, name_eq→eq i j, name_eq→eq k j, name_eq_refl k, find-assign j k v m)
