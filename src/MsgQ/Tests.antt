-- ===== src/MsgQ/Tests.antt =====
-- The queue's theorems at a run in which a receiver sleeps, is woken and takes a message.
use device_samsung_msm8660_c.Common.{◌≡◌, true, List, [], ◌∷◌, ◌++◌}
use mathlib.Core.List.{map}
use device_samsung_msm8660_c.LinkedList.Search.{Object}
use device_samsung_msm8660_c.LinkedList.Tail.{oldest_first}
use device_samsung_msm8660_c.MsgQ.Threads.{message, Event, send, enter, resume, spurious, run, idle}
use device_samsung_msm8660_c.MsgQ.Fifo.{run-IsFifo}
use device_samsung_msm8660_c.MsgQ.Wakeups.{NoneForgotten, run-NoneForgotten}

abbrev letter : Object
letter = record { data_ptr = 64; dealloc_func = 5 }

abbrev parcel : Object
parcel = record { data_ptr = 65; dealloc_func = 5 }

abbrev traffic : List Event
traffic = enter ∷ enter ∷ send true letter ∷ send true parcel ∷ resume ∷ spurious ∷ []

run-IsFifo_example :
    (run traffic idle).sent
    ≡ map message (run traffic idle).gone ++ oldest_first (run traffic idle).queue.msg_list
run-IsFifo_example = run-IsFifo traffic

run-NoneForgotten_example : NoneForgotten (run traffic idle)
run-NoneForgotten_example = run-NoneForgotten traffic
