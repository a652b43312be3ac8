-- ===== src/SensorReader/Tests.antt =====
-- A buffer of three events that wraps around.
use device_samsung_msm8660_c.Common.{ℕ, ◌≡◌, List, [], ◌∷◌, ◌++◌, arith}
use device_samsung_msm8660_c.SensorReader.{
  Reader, whole, partial, new_reader, fill, fill_read, advance, read_event, next,
}
use device_samsung_msm8660_c.SensorReader.Queue.{IsReader, pending}
use device_samsung_msm8660_c.SensorReader.Runs.{
  Op, filling, consuming, Within, new_log, step, run, run-order,
}

abbrev zeros : ℕ → ℕ
zeros i = 0

abbrev around : List (Op ℕ)
around =
    filling (whole (7 ∷ 8 ∷ []))
    ∷ consuming
    ∷ filling (whole (9 ∷ 10 ∷ []))
    ∷ consuming
    ∷ filling (partial (11 ∷ []))
    ∷ consuming
    ∷ consuming
    ∷ []

around-Within : Within around (new_log 3 zeros)
unfolding step new_reader fill fill_read advance read_event next
around-Within = (omega arith, (omega arith, (omega arith, tt)))

run-order_example :
    let l = run around (new_log 3 zeros) in l.events ≡ l.consumed ++ pending l.reader
run-order_example = run-order 3 zeros around (omega arith) around-Within

-- The third event stands at the end, and the next ones are to wrap.
abbrev wrapping : Reader ℕ
wrapping = record { num_events = 3; buffer = λ i. i; head = 3; curr = 2; free_space = 2 }

wrapping-IsReader : IsReader wrapping
wrapping-IsReader = ground arith
