-- ===== src/SensorReader/Runs.antt =====
-- A reader's use: `fill`, and `readEvent` with `next` while there is an event, as the sensors' poll
-- loops do.
use device_samsung_msm8660_c.Common.{
  ℕ, zero, suc, ◌+◌, ◌-◌, ◌*◌, ◌≤◌, ◌<◌, ◌≡◌, refl, sym, ap, ◌∙◌, true, not, List, [], ◌∷◌, ◌++◌,
  arith, length, is_nil, ◌==◌, if◌then◌else◌, inl, inr, Bool-cases,
}
use mathlib.Core.List.{append_assoc}
use device_samsung_msm8660_c.SensorReader.{
  Reader, ReadResult, failed, partial, whole, new_reader, advance, fill_read, fill, read_event,
  next,
}
use device_samsung_msm8660_c.SensorReader.Ring.{after, cells_from}
use device_samsung_msm8660_c.SensorReader.Queue.{used, IsReader, pending}
use device_samsung_msm8660_c.SensorReader.Order.{touched, brought, fill-IsReader, fill-pending}

module _ {E : Type 0} where
  is_nil-cells_from : (n k c : ℕ) (cells : ℕ → E) → is_nil (cells_from n k c cells) ≡ (k == 0)
  is_nil-cells_from n zero c cells = refl
  is_nil-cells_from n (suc k) c cells = ground arith

  cells_from-suc :
      (n k c : ℕ) (cells : ℕ → E)
      → 0 < k
      → cells_from n k c cells ≡ cells c ∷ cells_from n (k - 1) (after n c) cells
  cells_from-suc n zero c cells lt = ground arith
  cells_from-suc n (suc k) c cells lt =
      ap (λ m. cells c ∷ cells_from n m (after n c) cells) (omega arith)

  -- `read_event` says that there is an event exactly if there are events to be read.
  pub read_event-pending : (r : Reader E) → (read_event r).1 ≡ not (is_nil (pending r))
  unfolding read_event
  read_event-pending r = ap not (sym (is_nil-cells_from r.num_events (used r) r.curr r.buffer))

  next-IsReader : (r : Reader E) → IsReader r → (read_event r).1 ≡ true → IsReader (next r)
  unfolding read_event next
  next-IsReader r is more =
      ground (arith, is.behind, is.head_le, is.free_le, is.curr_below, is.some_cells)

  -- Where `read_event` says that there is an event, it points to the first one, which `next` takes.
  pub next-pending :
      (r : Reader E)
      → (read_event r).1 ≡ true
      → pending r ≡ r.buffer (read_event r).0 ∷ pending (next r)
  unfolding read_event next
  next-pending r more =
      cells_from-suc r.num_events (used r) r.curr r.buffer (ground arith)
      ∙ ap (λ m. r.buffer r.curr ∷ cells_from r.num_events m (after r.num_events r.curr) r.buffer)
          (omega arith)

module _ (E : Type 0) where
  -- A reader with the events that have been brought and those that have been consumed.
  pub record Log : Type 0 where
    pub reader : Reader E
    pub events : List E
    pub consumed : List E

  pub data Op : Type 0 where
    filling : ReadResult E → Op
    consuming : Op

module _ {E : Type 0} where
  unfoldable pub step : Op E → Log E → Log E
  step (filling result) l = record l {
    reader = (fill result l.reader).1;
    events = l.events ++ brought result;
  }
  step consuming l =
      let (at, more) = read_event l.reader in
      if more
      then record l { reader = next l.reader; consumed = l.consumed ++ l.reader.buffer at ∷ [] }
      else l

  unfoldable pub run : List (Op E) → Log E → Log E
  run [] l = l
  run (o ∷ os) l = run os (step o l)

  -- Each read stays within the space that it is given.
  abbrev pub Within : List (Op E) → Log E → Type 0
  Within [] l = Unit
  Within (filling result ∷ os) l =
      (length (touched result) ≤ l.reader.free_space) × Within os (step (filling result) l)
  Within (consuming ∷ os) l = Within os (step consuming l)

  -- All that was brought has been consumed or is to be read, in order.
  pub record IsOrdered (l : Log E) : Type 0 where
    pub sound : IsReader l.reader
    pub order : l.events ≡ l.consumed ++ pending l.reader

  filling-IsOrdered :
      (result : ReadResult E) (l : Log E)
      → IsOrdered l
      → length (touched result) ≤ l.reader.free_space
      → IsOrdered (step (filling result) l)
  unfolding step
  filling-IsOrdered result l o fits = record {
    sound = fill-IsReader result l.reader o.sound fits;
    order =
        ap (λ es. es ++ brought result) o.order
        ∙ append_assoc l.consumed (pending l.reader) (brought result)
        ∙ ap (λ es. l.consumed ++ es) (sym (fill-pending result l.reader o.sound fits));
  }

  consuming-IsOrdered : (l : Log E) → IsOrdered l → IsOrdered (step consuming l)
  unfolding step
  consuming-IsOrdered l o = elim (Bool-cases (read_event l.reader).1) [
    | inl more ↦ rw more (record {
      sound = next-IsReader l.reader o.sound more;
      order =
          o.order
          ∙ ap (λ es. l.consumed ++ es) (next-pending l.reader more)
          ∙ sym (
              append_assoc l.consumed (l.reader.buffer (read_event l.reader).0 ∷ [])
                (pending (next l.reader)));
    })
    | inr none_ ↦ rw none_ o
  ]

  run-IsOrdered : (os : List (Op E)) (l : Log E) → Within os l → IsOrdered l → IsOrdered (run os l)
  unfolding run
  run-IsOrdered [] l w o = o
  run-IsOrdered (filling result ∷ os) l (fits, w) o =
      run-IsOrdered os (step (filling result) l) w (filling-IsOrdered result l o fits)
  run-IsOrdered (consuming ∷ os) l w o =
      run-IsOrdered os (step consuming l) w (consuming-IsOrdered l o)

  abbrev pub new_log : ℕ → (ℕ → E) → Log E
  new_log n cells = record { reader = new_reader n cells; events = []; consumed = [] }

  none_left : (n : ℕ) (cells : ℕ → E) → [] ≡ cells_from n (n - n) 0 cells
  none_left n cells = ap (λ k. cells_from n k 0 cells) (sub_self n)
    where
      sub_self : (m : ℕ) → 0 ≡ m - m
      sub_self m = omega arith

  new_log-IsOrdered : (n : ℕ) (cells : ℕ → E) → 0 < n → IsOrdered (new_log n cells)
  unfolding new_reader
  new_log-IsOrdered n cells some_cells = record { sound = ground arith; order = none_left n cells }

  -- A new reader for at least one event gives its consumers the events that whole reads bring, each
  -- once and in order, whatever fills and consumptions follow each other, as long as each read stays
  -- within the free space; the events brought are those consumed and then those still to be read.
  pub run-order :
      (n : ℕ) (cells : ℕ → E) (os : List (Op E))
      → 0 < n
      → Within os (new_log n cells)
      → let l = run os (new_log n cells) in l.events ≡ l.consumed ++ pending l.reader
  run-order n cells os some_cells w =
      (run-IsOrdered os (new_log n cells) w (new_log-IsOrdered n cells some_cells)).order

  run-num_events :
      (os : List (Op E)) (l : Log E) → (run os l).reader.num_events ≡ l.reader.num_events
  unfolding run step fill fill_read advance read_event next
  run-num_events [] l = refl
  run-num_events (filling (failed errno) ∷ os) l =
      run-num_events os (step (filling (failed errno)) l) ∙ ground arith
  run-num_events (filling (partial es) ∷ os) l =
      run-num_events os (step (filling (partial es)) l) ∙ ground arith
  run-num_events (filling (whole es) ∷ os) l =
      run-num_events os (step (filling (whole es)) l) ∙ ground arith
  run-num_events (consuming ∷ os) l = run-num_events os (step consuming l) ∙ ground arith

  -- After any fills and consumptions on a new reader for at least one event, each read within the
  -- free space, the cells that the next read may fill stay within the `2 * n` that the buffer has.
  pub run-fits :
      (n : ℕ) (cells : ℕ → E) (os : List (Op E))
      → 0 < n
      → Within os (new_log n cells)
      → let r = (run os (new_log n cells)).reader in r.head + r.free_space ≤ 2 * n
  unfolding new_reader
  run-fits n cells os some_cells w =
      let o = run-IsOrdered os (new_log n cells) w (new_log-IsOrdered n cells some_cells) in
      omega (arith, o.sound.head_le, o.sound.free_le, run-num_events os (new_log n cells))
