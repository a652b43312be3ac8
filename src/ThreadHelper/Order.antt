-- ===== src/ThreadHelper/Order.antt =====
-- The order in which the thread calls its procedures.
use device_samsung_msm8660_c.Common.{ℕ, Bool, true, ◌&&◌, List, [], ◌∷◌, ltb, ◌≤◌, ◌≡◌, refl, arith}
use device_samsung_msm8660_c.ThreadHelper.{
  Proc, proc_init, proc_pre, proc_loop, proc_post, Procs, Place, at_init, at_pre, at_loop, at_post,
  ended, Launcher, before_wait, asleep, woken, launched, Helper, thelper_signal_ready, main_init,
  main_pre, main_loop, main_post, main_at, thelper_main, launcher_at, launcher_turn, spurious_wake,
  unblock_thelper, launch_thelper, Turn, main_turn, launch_turn, wake_turn, unblock_turn, turn,
  turns,
}

abbrev pub rank : Proc → ℕ
rank proc_init = 0
rank proc_pre = 1
rank proc_loop = 2
rank proc_post = 3

-- Calls of procedures below a rank only.
abbrev pub below : ℕ → List Proc → Bool
below n [] = true
below n (p ∷ ps) = ltb (rank p) n && below n ps

-- Each call comes behind those of lower rank only, but for the loop's procedure, which follows itself.
abbrev pub ordered : List Proc → Bool
ordered [] = true
ordered (proc_loop ∷ ps) = below 3 ps && ordered ps
ordered (p ∷ ps) = below (rank p) ps && ordered ps

-- What has been called when the thread stands at a place.
abbrev pub limit : Place → ℕ
limit at_init = 0
limit at_pre = 1
limit at_loop = 3
limit at_post = 3
limit ended = 4

pub record InOrder (h : Helper) : Type 0 where
  pub in_order : ordered h.calls ≡ true
  pub so_far : below (limit h.place) h.calls ≡ true

below-more : (m n : ℕ) (ps : List Proc) → m ≤ n → below m ps ≡ true → below n ps ≡ true
below-more m n [] more h = refl
below-more m n (p ∷ ps) more h = ground (arith, more, h, below-more m n ps more)

main-InOrder :
    (place : Place) (negative : Bool) (h : Helper)
    → h.place ≡ place
    → InOrder h
    → InOrder (main_at place negative h)
unfolding main_init main_pre main_loop main_post thelper_signal_ready
main-InOrder at_init negative h here o = ground (
  arith,
  here,
  o.in_order,
  o.so_far,
  below-more 0 1 h.calls (omega arith),
  below-more 0 4 h.calls (omega arith),
)
main-InOrder at_pre negative h here o = ground (
  arith,
  here,
  o.in_order,
  o.so_far,
  below-more 1 3 h.calls (omega arith),
  below-more 1 4 h.calls (omega arith),
)
main-InOrder at_loop negative h here o = ground (arith, here, o.in_order, o.so_far)
main-InOrder at_post negative h here o =
    ground (arith, here, o.in_order, o.so_far, below-more 3 4 h.calls (omega arith))
main-InOrder ended negative h here o = o

launcher-InOrder : (l : Launcher) (h : Helper) → InOrder h → InOrder (launcher_at l h)
launcher-InOrder before_wait h o = record { in_order = o.in_order; so_far = o.so_far }
launcher-InOrder asleep h o = o
launcher-InOrder woken h o = record { in_order = o.in_order; so_far = o.so_far }
launcher-InOrder (launched x) h o = o

turn-InOrder : (t : Turn) (h : Helper) → InOrder h → InOrder (turn t h)
unfolding turn thelper_main launcher_turn spurious_wake unblock_thelper
turn-InOrder (main_turn negative) h o = main-InOrder h.place negative h refl o
turn-InOrder launch_turn h o = launcher-InOrder h.launcher h o
turn-InOrder wake_turn h o = record { in_order = o.in_order; so_far = o.so_far }
turn-InOrder unblock_turn h o = record { in_order = o.in_order; so_far = o.so_far }

turns-from-InOrder : (ts : List Turn) (h : Helper) → InOrder h → InOrder (turns ts h)
unfolding turns
turns-from-InOrder [] h o = o
turns-from-InOrder (t ∷ ts) h o = turns-from-InOrder ts (turn t h) (turn-InOrder t h o)

-- However the thread and its launcher interleave, whatever the procedures return, and whenever the
-- thread is unblocked: the thread's procedures are called in order, the first, the second and the last
-- once at most, the loop's between the second and the last, and at each place only those before it.
pub turns-InOrder : (ps : Procs) (ts : List Turn) → InOrder (turns ts (launch_thelper ps))
unfolding launch_thelper
turns-InOrder ps ts =
    turns-from-InOrder ts (launch_thelper ps) (record { in_order = refl; so_far = refl })
