-- ===== src/Slicer/Vectors.antt =====
-- What the slicer relies on of Highway's vector operations, and one step of its inner loop.
use Prim.Native.Nat.{bit_and, bit_xor}
use apex_engine.Common.{
  ℕ, suc, ◌+◌, ◌-◌, ◌*◌, ◌^◌, ◌≤◌, ◌<◌, ◌≡◌, ◌∙◌, ap, ap₂, inr, arith, length, ltb, leb, ◌&&◌, ◌⊎◌,
  if◌then◌else◌,
}
use apex_engine.Word.{shr, shl64}
use apex_engine.Slicer.{ColumnBuffer, Highway, word, swap_rows}

-- Documented behaviour: every operation acts lane by lane, loads and stores move `lanes`
-- consecutive words, and the number of lanes divides a cap that is a power of two from 2 on.
module _ (hw : Highway) where
  open hw use {Vector, lanes, load, store, broadcast, v_and, v_xor, shift_right, shift_left, lane}

  pub record IsLanewise : Type 0 where
    pub rounds : ℕ → ℕ
    pub rounds_lanes : (e : ℕ) → rounds e * lanes (2 ^ suc e) ≡ 2 ^ suc e
    pub lane-load :
        (cap : ℕ) (a : ColumnBuffer) (k i : ℕ)
        → i < lanes cap
        → k + lanes cap ≤ length a
        → lane cap (load cap a k) i ≡ word a (k + i)
    pub length-store :
        (cap : ℕ) (v : Vector cap) (a : ColumnBuffer) (k : ℕ) → length (store cap v a k) ≡ length a
    pub word-store :
        (cap : ℕ) (v : Vector cap) (a : ColumnBuffer) (k j : ℕ)
        → k + lanes cap ≤ length a
        → word (store cap v a k) j
          ≡ (if leb k j && ltb j (k + lanes cap) then lane cap v (j - k) else word a j)
    pub lane-broadcast : (cap m i : ℕ) → i < lanes cap → lane cap (broadcast cap m) i ≡ m
    pub lane-v_and :
        (cap : ℕ) (u v : Vector cap) (i : ℕ)
        → i < lanes cap
        → lane cap (v_and cap u v) i ≡ bit_and (lane cap u i) (lane cap v i)
    pub lane-v_xor :
        (cap : ℕ) (u v : Vector cap) (i : ℕ)
        → i < lanes cap
        → lane cap (v_xor cap u v) i ≡ bit_xor (lane cap u i) (lane cap v i)
    pub lane-shift_right :
        (cap k : ℕ) (v : Vector cap) (i : ℕ)
        → i < lanes cap
        → lane cap (shift_right cap k v) i ≡ shr (lane cap v i) k
    pub lane-shift_left :
        (cap k : ℕ) (v : Vector cap) (i : ℕ)
        → i < lanes cap
        → lane cap (shift_left cap k v) i ≡ shl64 (lane cap v i) k

-- The two words that a masked swap puts back, from the words `x` and `y` of a pair of rows.
abbrev pub swap_mask : ℕ → ℕ → ℕ → ℕ → ℕ
swap_mask s m x y = bit_and (bit_xor (shr x s) y) m

unfoldable pub upper_word : ℕ → ℕ → ℕ → ℕ → ℕ
upper_word s m x y = bit_xor x (shl64 (swap_mask s m x y) s)

unfoldable pub lower_word : ℕ → ℕ → ℕ → ℕ → ℕ
lower_word s m x y = bit_xor y (swap_mask s m x y)

abbrev pub Within : ℕ → ℕ → ℕ → Type 0
Within lo hi j = (lo ≤ j) × (j < hi)

module _ {hw : Highway} (w : IsLanewise hw) where
  open hw use {Vector, lanes, load, store, broadcast, v_and, v_xor, shift_right, shift_left, lane}

  word-store_in :
      (cap : ℕ) (v : Vector cap) (a : ColumnBuffer) (k j : ℕ)
      → k + lanes cap ≤ length a
      → Within k (k + lanes cap) j
      → word (store cap v a k) j ≡ lane cap v (j - k)
  word-store_in cap v a k j fits h = ground (arith, w.word-store cap v a k j)

  word-store_out :
      (cap : ℕ) (v : Vector cap) (a : ColumnBuffer) (k j : ℕ)
      → k + lanes cap ≤ length a
      → (j < k) ⊎ (k + lanes cap ≤ j)
      → word (store cap v a k) j ≡ word a j
  word-store_out cap v a k j fits h = ground (arith, w.word-store cap v a k j)

  module _ (s m k : ℕ) (a : ColumnBuffer) (apart : lanes s ≤ s)
      (fits : k + s + lanes s ≤ length a) where
    abbrev va : Vector s
    va = load s a k

    abbrev vb : Vector s
    vb = load s a (k + s)

    abbrev vt : Vector s
    vt = v_and s (v_xor s (shift_right s s va) vb) (broadcast s m)

    lane-va : (i : ℕ) → i < lanes s → lane s va i ≡ word a (k + i)
    lane-va i h = w.lane-load s a k i h (omega arith)

    lane-vb : (i : ℕ) → i < lanes s → lane s vb i ≡ word a (k + s + i)
    lane-vb i h = w.lane-load s a (k + s) i h fits

    lane-vt :
        (i : ℕ) → i < lanes s → lane s vt i ≡ swap_mask s m (word a (k + i)) (word a (k + s + i))
    lane-vt i h = rw (
      w.lane-v_and s _ _ i h,
      w.lane-v_xor s _ _ i h,
      w.lane-shift_right s s _ i h,
      w.lane-broadcast s m i h,
      lane-va i h,
      lane-vb i h,
    )

    -- The lanes of row `j` of the upper run.
    at_row :
        (j : ℕ)
        → Within k (k + lanes s) j
        → (lane s va (j - k) ≡ word a j)
          × (lane s vt (j - k) ≡ swap_mask s m (word a j) (word a (j + s)))
    at_row j h =
        let up : k + (j - k) ≡ j = omega arith in
        let down : k + s + (j - k) ≡ j + s = omega arith in
        (
          lane-va (j - k) (omega arith) ∙ ap (word a) up,
          lane-vt (j - k) (omega arith) ∙ ap₂ (swap_mask s m) (ap (word a) up) (ap (word a) down),
        )

    -- One step of an inner loop replaces two runs of rows, and leaves the others alone.
    pub word-swap_rows_upper :
        (j : ℕ)
        → Within k (k + lanes s) j
        → word (swap_rows hw s m k a) j ≡ upper_word s m (word a j) (word a (j + s))
    unfolding swap_rows upper_word
    word-swap_rows_upper j h =
        word-store_in s _ _ k j (rw w.length-store (omega arith)) h
        ∙ w.lane-v_xor s _ _ (j - k) (omega arith)
        ∙ ap₂ bit_xor (at_row j h).0 (
            w.lane-shift_left s s vt (j - k) (omega arith)
            ∙ ap (λ (t : ℕ). shl64 t s) (at_row j h).1)

    pub word-swap_rows_lower :
        (j : ℕ)
        → Within (k + s) (k + s + lanes s) j
        → word (swap_rows hw s m k a) j ≡ lower_word s m (word a (j - s)) (word a j)
    unfolding swap_rows lower_word
    word-swap_rows_lower j h =
        let i : ℕ = j - (k + s) in
        let here : k + s + i ≡ j = omega arith in
        let up : k + i ≡ j - s = omega arith in
        word-store_out s _ _ k j (rw w.length-store (omega arith)) (inr (omega arith))
        ∙ word-store_in s _ _ (k + s) j fits h
        ∙ w.lane-v_xor s _ _ i (omega arith)
        ∙ ap₂ bit_xor (lane-vb i (omega arith) ∙ ap (word a) here)
            (lane-vt i (omega arith) ∙ ap₂ (swap_mask s m) (ap (word a) up) (ap (word a) here))

    pub word-swap_rows_other :
        (j : ℕ)
        → (j < k) ⊎ (k + lanes s ≤ j)
        → (j < k + s) ⊎ (k + s + lanes s ≤ j)
        → word (swap_rows hw s m k a) j ≡ word a j
    unfolding swap_rows
    word-swap_rows_other j p q =
        word-store_out s _ _ k j (rw w.length-store (omega arith)) p
        ∙ word-store_out s _ _ (k + s) j fits q

    pub length-swap_rows : length (swap_rows hw s m k a) ≡ length a
    unfolding swap_rows
    length-swap_rows = w.length-store s _ _ k ∙ w.length-store s _ _ (k + s)
