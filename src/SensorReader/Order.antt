-- ===== src/SensorReader/Order.antt =====
-- What the operations of the buffer do to the events to be read.
use device_samsung_msm8660_c.Common.{◌+◌, ◌≤◌, ◌≡◌, List, [], ◌∷◌, ◌++◌, arith, length, inl, inr}
use mathlib.Core.List.{append-nil}
use device_samsung_msm8660_c.SensorReader.{
  Reader, ReadResult, failed, partial, whole, write_at, advance, fill_read, fill,
}
use device_samsung_msm8660_c.SensorReader.Ring.{wrap, cells_from-agree, write_at-low, write_at-high}
use device_samsung_msm8660_c.SensorReader.Queue.{
  used, IsReader, pending, stored, stored-cells, place-old,
}

module _ {E : Type 0} where
  -- The cells that `read` touches, and the events that it brings.
  abbrev pub touched : ReadResult E → List E
  touched (failed errno) = []
  touched (partial es) = es
  touched (whole es) = es

  abbrev pub brought : ReadResult E → List E
  brought (whole es) = es
  brought _ = []

  -- The buffer after a whole read of some events.
  abbrev pub filled : List E → Reader E → Reader E
  filled es r = advance (length es) (record r { buffer = write_at r.head es r.buffer })

  filled-IsReader :
      (r : Reader E) (es : List E) → IsReader r → length es ≤ r.free_space → IsReader (filled es r)
  unfolding advance
  filled-IsReader r es is fits =
      ground (arith, is.behind, is.head_le, is.free_le, is.curr_below, is.some_cells)

  filled-fields :
      (r : Reader E) (es : List E)
      → length es ≤ r.free_space
      → r.free_space ≤ r.num_events
      → (used (filled es r) ≡ used r + length es)
        × ((filled es r).buffer ≡ stored r es)
        × ((filled es r).curr ≡ r.curr)
        × ((filled es r).num_events ≡ r.num_events)
  unfolding advance
  filled-fields r es fits free = ground arith

  filled-pending :
      (r : Reader E) (es : List E)
      → IsReader r
      → length es ≤ r.free_space
      → pending (filled es r) ≡ pending r ++ es
  filled-pending r es is fits =
      let (u, b, c, n) = filled-fields r es fits is.free_le in
      rw (u, b, c, n) (stored-cells r es is fits)

  partial-pending :
      (r : Reader E) (es : List E)
      → IsReader r
      → length es ≤ r.free_space
      → pending (record r { buffer = write_at r.head es r.buffer }) ≡ pending r
  partial-pending r es is fits =
      cells_from-agree r.num_events (used r) r.curr r.buffer (write_at r.head es r.buffer)
        is.curr_below (omega arith)
        (λ i lt.
          let j = wrap r.num_events (r.curr + i) in
          elim (place-old r (length es) i is fits lt).1 [
            | inl low ↦ write_at-low r.head es r.buffer j low
            | inr high ↦ write_at-high r.head es r.buffer j high
          ])

  pub fill-IsReader :
      (result : ReadResult E) (r : Reader E)
      → IsReader r
      → length (touched result) ≤ r.free_space
      → IsReader (fill result r).1
  unfolding fill fill_read
  fill-IsReader (failed errno) r is fits = ground arith
  fill-IsReader (partial es) r is fits =
      ground (arith, is.behind, is.head_le, is.free_le, is.curr_below, is.some_cells)
  fill-IsReader (whole es) r is fits = ground (arith, filled-IsReader r es is fits)

  -- A `fill` whose read stays within the free space adds the events that it brings behind those to be
  -- read, in order; a failed or partial read changes none of them.
  pub fill-pending :
      (result : ReadResult E) (r : Reader E)
      → IsReader r
      → length (touched result) ≤ r.free_space
      → pending (fill result r).1 ≡ pending r ++ brought result
  unfolding fill fill_read
  fill-pending (failed errno) r is fits = ground (arith, append-nil (pending r))
  fill-pending (partial es) r is fits =
      ground (arith, append-nil (pending r), partial-pending r es is fits)
  fill-pending (whole []) r is fits = ground (arith, append-nil (pending r))
  fill-pending (whole (e ∷ es)) r is fits = ground (arith, filled-pending r (e ∷ es) is fits)
