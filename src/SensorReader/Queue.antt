-- ===== src/SensorReader/Queue.antt =====
-- The buffer holds the events that were read from the device and not yet consumed, in order.
use device_samsung_msm8660_c.Common.{
  ℕ, ◌+◌, ◌-◌, ◌≤◌, ◌<◌, ◌≡◌, ap, ap₂, ◌∙◌, some, List, ◌++◌, arith, length, ltb, if◌then◌else◌,
  ◌⊎◌, inl, inr,
}
use device_samsung_msm8660_c.SensorReader.{Reader, write_at, copy_back}
use device_samsung_msm8660_c.SensorReader.Ring.{
  wrap, cells_from, cells_from-add, cells_from-agree, cells_from-reads, get_elem?, get_elem?-bound,
  write_at-hit, write_at-low, write_at-high,
}

module _ {E : Type 0} where
  abbrev pub used : Reader E → ℕ
  used r = r.num_events - r.free_space

  -- `mHead` is `mFreeSpace` cells before `mCurr` in the ring, or at `mBufferEnd` in place of the start.
  pub record IsReader (r : Reader E) : Type 0 where
    pub some_cells : 0 < r.num_events
    pub curr_below : r.curr < r.num_events
    pub free_le : r.free_space ≤ r.num_events
    pub head_le : r.head ≤ r.num_events
    pub behind :
        ((r.head ≡ r.curr + used r) ⊎ (r.head + r.num_events ≡ r.curr + used r))
        ⊎ (r.head ≡ r.curr + used r + r.num_events)

  -- The events to be read.
  abbrev pub pending : Reader E → List E
  pending r = cells_from r.num_events (used r) r.curr r.buffer

  -- What a whole read stores: where the events begin, and the memory after it.
  abbrev start : Reader E → ℕ
  start r = wrap r.num_events (r.curr + used r)

  abbrev pub stored : Reader E → List E → ℕ → E
  stored r es =
      if ltb r.num_events (r.head + length es)
      then copy_back r.num_events (r.head + length es - r.num_events) (write_at r.head es r.buffer)
      else write_at r.head es r.buffer

  stored-same :
      (r : Reader E) (es : List E) (j : ℕ)
      → r.head + length es ≤ r.num_events + j
      → stored r es j ≡ write_at r.head es r.buffer j
  unfolding copy_back
  stored-same r es j le = ground arith

  stored-moved :
      (r : Reader E) (es : List E) (j : ℕ)
      → r.num_events + j < r.head + length es
      → stored r es j ≡ write_at r.head es r.buffer (r.num_events + j)
  unfolding copy_back
  stored-moved r es j lt = ground arith

  place-new :
      (r : Reader E) (m i : ℕ)
      → IsReader r
      → m ≤ r.free_space
      → i < m
      → let j = wrap r.num_events (start r + i) in
        (j ≡ r.head + i) ⊎ (r.num_events + j ≡ r.head + i)
  place-new r m i is fits lt =
      ground (arith, is.behind, is.head_le, is.free_le, is.curr_below, is.some_cells)

  stored-new :
      (r : Reader E) (es : List E)
      → IsReader r
      → length es ≤ r.free_space
      → (i : ℕ) (e : E) → get_elem? es i ≡ some e
      → stored r es (wrap r.num_events (start r + i)) ≡ e
  stored-new r es is fits i e g =
      let j = wrap r.num_events (start r + i) in
      let lt = get_elem?-bound es i e g in
      let hit = write_at-hit r.head es r.buffer i e g in
      elim (place-new r (length es) i is fits lt) [
        | inl at ↦
            stored-same r es j (omega (arith, at, fits, is.free_le))
            ∙ ap (write_at r.head es r.buffer) at
            ∙ hit
        | inr at ↦
            stored-moved r es j (omega (arith, at, lt)) ∙ ap (write_at r.head es r.buffer) at ∙ hit
      ]

  pub place-old :
      (r : Reader E) (m i : ℕ)
      → IsReader r
      → m ≤ r.free_space
      → i < used r
      → let j = wrap r.num_events (r.curr + i) in
        (r.head + m ≤ r.num_events + j) × ((j < r.head) ⊎ (r.head + m ≤ j))
  place-old r m i is fits lt =
      ground (arith, is.behind, is.head_le, is.free_le, is.curr_below, is.some_cells)

  stored-old :
      (r : Reader E) (es : List E)
      → IsReader r
      → length es ≤ r.free_space
      → (i : ℕ) → i < used r
      → stored r es (wrap r.num_events (r.curr + i)) ≡ r.buffer (wrap r.num_events (r.curr + i))
  stored-old r es is fits i lt =
      let j = wrap r.num_events (r.curr + i) in
      let (le, side) = place-old r (length es) i is fits lt in
      stored-same r es j le ∙ elim side [
        | inl low ↦ write_at-low r.head es r.buffer j low
        | inr high ↦ write_at-high r.head es r.buffer j high
      ]

  pub stored-cells :
      (r : Reader E) (es : List E)
      → IsReader r
      → length es ≤ r.free_space
      → cells_from r.num_events (used r + length es) r.curr (stored r es) ≡ pending r ++ es
  stored-cells r es is fits =
      cells_from-add r.num_events (used r) (length es) r.curr (stored r es) is.curr_below
        (omega arith)
      ∙ ap₂ (λ xs ys. xs ++ ys)
          (cells_from-agree r.num_events (used r) r.curr r.buffer (stored r es) is.curr_below
            (omega arith) (stored-old r es is fits))
          (cells_from-reads r.num_events (start r) es (stored r es)
            (ground (arith, is.curr_below, is.free_le, is.some_cells))
            (omega (arith, fits, is.free_le)) (stored-new r es is fits))
