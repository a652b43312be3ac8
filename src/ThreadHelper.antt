-- ===== src/ThreadHelper.antt =====
-- The thread of a daemon connection: gps/libloc_api_50001/loc_eng_dmn_conn_thread_helper.c. The thread
-- (`thelper_main`) and its launcher run in any order, one call of a procedure or one critical section at
-- a time; a procedure may return a negative result at any call.
pub mod Order
mod Tests
use device_samsung_msm8660_c.Common.{
  Bool, true, false, ◌&&◌, ◌||◌, not, List, [], ◌∷◌, if◌then◌else◌,
}

-- `thread_proc_init`, `thread_proc_pre`, `thread_proc` and `thread_proc_post`.
pub data Proc : Type 0 where
  proc_init proc_pre proc_loop proc_post : Proc

-- Which of them are not null.
pub record Procs : Type 0 where
  pub has_init : Bool
  pub has_pre : Bool
  pub has_loop : Bool
  pub has_post : Bool

-- Where `thelper_main` stands: before `thread_proc_init`, `thread_proc_pre`, the body of the loop and
-- `thread_proc_post`, or it has returned.
pub data Place : Type 0 where
  at_init at_pre at_loop at_post ended : Place

-- The launcher is before `thelper_signal_wait`, in `pthread_cond_wait`, or out of it with the mutex to
-- take; or the launch has returned `thread_exit`.
pub data Launcher : Type 0 where
  before_wait asleep woken : Launcher
  launched : (thread_exit : Bool) → Launcher

-- `loc_eng_dmn_conn_thelper` with both threads, and the calls of procedures, the latest first.
pub record Helper : Type 0 where
  pub procs : Procs
  pub thread_exit : Bool
  pub thread_ready : Bool
  pub place : Place
  pub launcher : Launcher
  pub calls : List Proc

abbrev pub call_if : Bool → Proc → List Proc → List Proc
call_if b p cs = if b then p ∷ cs else cs

-- `thelper_signal_ready`: a sleeping launcher wakes.
abbrev pub wake_launcher : Launcher → Launcher
wake_launcher asleep = woken
wake_launcher l = l

unfoldable pub thelper_signal_ready : Helper → Helper
thelper_signal_ready h = record h { thread_ready = true; launcher = wake_launcher h.launcher }

-- `thelper_main`, from where it stands; `negative` is what the procedure returns, if there is one.
unfoldable pub main_init : (negative : Bool) → Helper → Helper
unfolding thelper_signal_ready
main_init negative h =
    let failed = h.procs.has_init && negative in
    thelper_signal_ready (record h {
      calls = call_if h.procs.has_init proc_init h.calls;
      thread_exit = h.thread_exit || failed;
      place = if failed then ended else at_pre;
    })

unfoldable pub main_pre : (negative : Bool) → Helper → Helper
main_pre negative h =
    let failed = h.procs.has_pre && negative in
    record h {
      calls = call_if h.procs.has_pre proc_pre h.calls;
      thread_exit = h.thread_exit || failed;
      place = if failed then ended else at_loop;
    }

-- A round of the loop, and the test behind it.
unfoldable pub main_loop : (negative : Bool) → Helper → Helper
main_loop negative h =
    let stop = h.thread_exit || h.procs.has_loop && negative in
    record h {
      calls = call_if h.procs.has_loop proc_loop h.calls;
      thread_exit = stop;
      place = if stop then at_post else at_loop;
    }

unfoldable pub main_post : Helper → Helper
main_post h = record h { calls = call_if h.procs.has_post proc_post h.calls; place = ended }

abbrev pub main_at : Place → (negative : Bool) → Helper → Helper
main_at at_init negative h = main_init negative h
main_at at_pre negative h = main_pre negative h
main_at at_loop negative h = main_loop negative h
main_at at_post negative h = main_post h
main_at ended negative h = h

unfoldable pub thelper_main : (negative : Bool) → Helper → Helper
unfolding main_init main_pre main_loop main_post
thelper_main negative h = main_at h.place negative h

-- `thelper_signal_wait` and the end of `loc_eng_dmn_conn_launch_thelper`.
abbrev pub launcher_at : Launcher → Helper → Helper
launcher_at before_wait h = record h {
  launcher = if h.thread_ready || h.thread_exit then launched h.thread_exit else asleep;
}
launcher_at asleep h = h
launcher_at woken h = record h { launcher = launched h.thread_exit }
launcher_at (launched x) h = h

unfoldable pub launcher_turn : Helper → Helper
launcher_turn h = launcher_at h.launcher h

-- A wait may end without a signal.
unfoldable pub spurious_wake : Helper → Helper
spurious_wake h = record h { launcher = wake_launcher h.launcher }

-- `loc_eng_dmn_conn_unblock_thelper`
unfoldable pub unblock_thelper : Helper → Helper
unblock_thelper h = record h { thread_exit = true }

-- `loc_eng_dmn_conn_launch_thelper` up to the new thread.
unfoldable pub launch_thelper : Procs → Helper
launch_thelper ps = record {
  procs = ps;
  thread_exit = false;
  thread_ready = false;
  place = at_init;
  launcher = before_wait;
  calls = [];
}

pub data Turn : Type 0 where
  main_turn : (negative : Bool) → Turn
  launch_turn wake_turn unblock_turn : Turn

unfoldable pub turn : Turn → Helper → Helper
unfolding thelper_main launcher_turn spurious_wake unblock_thelper
turn (main_turn negative) h = thelper_main negative h
turn launch_turn h = launcher_turn h
turn wake_turn h = spurious_wake h
turn unblock_turn h = unblock_thelper h

unfoldable pub turns : List Turn → Helper → Helper
unfolding turn
turns [] h = h
turns (t ∷ ts) h = turns ts (turn t h)
