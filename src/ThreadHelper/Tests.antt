-- ===== src/ThreadHelper/Tests.antt =====
-- A thread whose loop runs twice and is then unblocked, while its launcher wakes too early.
use device_samsung_msm8660_c.Common.{true, false, List, [], ◌∷◌}
use device_samsung_msm8660_c.ThreadHelper.{
  Procs, launch_thelper, Turn, main_turn, launch_turn, wake_turn, unblock_turn, turns,
}
use device_samsung_msm8660_c.ThreadHelper.Order.{InOrder, turns-InOrder}

abbrev all_procs : Procs
all_procs = record { has_init = true; has_pre = true; has_loop = true; has_post = true }

abbrev schedule : List Turn
schedule =
    launch_turn
    ∷ wake_turn
    ∷ launch_turn
    ∷ main_turn false
    ∷ main_turn false
    ∷ main_turn false
    ∷ unblock_turn
    ∷ main_turn false
    ∷ main_turn false
    ∷ []

turns-InOrder_example : InOrder (turns schedule (launch_thelper all_procs))
turns-InOrder_example = turns-InOrder all_procs schedule
