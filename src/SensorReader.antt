-- ===== src/SensorReader.antt =====
-- The circular buffer of libsensors/InputEventReader.cpp. `mBuffer` is a memory of cells by index, of
-- which `2 * num_events` exist; `mBufferEnd` is the cell `num_events`, and pointers are indices.
mod Ring
mod Queue
mod Order
mod Runs
mod Tests
use device_samsung_msm8660_c.Common.{
  ℕ, ◌+◌, ◌-◌, Bool, true, false, not, List, [], ◌∷◌, length, is_nil, ltb, leb, ◌==◌, if◌then◌else◌,
}

module _ (E : Type 0) where
  pub record Reader : Type 0 where
    pub num_events : ℕ
    pub buffer : ℕ → E
    pub head : ℕ
    pub curr : ℕ
    pub free_space : ℕ

  -- What `read` does: it fails with an `errno`, or fills cells and returns a number of bytes that is,
  -- or is not, a whole number of events. The last cell of a partial read is touched only in part.
  pub data ReadResult : Type 0 where
    failed : (errno : ℕ) → ReadResult
    partial whole : List E → ReadResult

-- The result of `fill`: a negated error number, or the number of events.
pub data FillResult : Type 0 where
  minus_errno : ℕ → FillResult
  minus_einval : FillResult
  count : ℕ → FillResult

module _ {E : Type 0} where
  -- `InputEventCircularReader`; what `new` leaves in the cells is an argument.
  unfoldable pub new_reader : (num_events : ℕ) (cells : ℕ → E) → Reader E
  new_reader num_events cells = record {
    num_events = num_events;
    buffer = cells;
    head = 0;
    curr = 0;
    free_space = num_events;
  }

  -- Events stored from a cell on.
  unfoldable pub write_at : ℕ → List E → (ℕ → E) → ℕ → E
  write_at h [] cells = cells
  write_at h (e ∷ es) cells = λ i. if i == h then e else write_at (h + 1) es cells i

  -- `memcpy` of the `s` cells behind `mBufferEnd` to the start.
  unfoldable pub copy_back : (end_ s : ℕ) → (ℕ → E) → ℕ → E
  copy_back end_ s cells = λ i. if ltb i s then cells (end_ + i) else cells i

  -- `mHead` and `mFreeSpace` after a read of some events.
  unfoldable pub advance : ℕ → Reader E → Reader E
  advance m r =
      let h = r.head + m in
      if ltb r.num_events h
      then record r {
        buffer = copy_back r.num_events (h - r.num_events) r.buffer;
        head = h - r.num_events;
        free_space = r.free_space - m;
      }
      else record r { head = h; free_space = r.free_space - m }

  unfoldable pub fill_read : ReadResult E → Reader E → FillResult × Reader E
  fill_read (failed errno) r = (minus_errno errno, r)
  fill_read (partial es) r = (minus_einval, record r { buffer = write_at r.head es r.buffer })
  fill_read (whole es) r =
      let r' = advance (length es) (record r { buffer = write_at r.head es r.buffer }) in
      (count (length es), if is_nil es then r else r')

  unfoldable pub fill : ReadResult E → Reader E → FillResult × Reader E
  fill result r = if r.free_space == 0 then (count 0, r) else fill_read result r

  -- `readEvent`: where the event is, and whether there is one.
  unfoldable pub read_event : Reader E → ℕ × Bool
  read_event r = (r.curr, not (r.num_events - r.free_space == 0))

  unfoldable pub next : Reader E → Reader E
  next r =
      let c = if leb r.num_events (r.curr + 1) then 0 else r.curr + 1 in
      record r { curr = c; free_space = r.free_space + 1 }
