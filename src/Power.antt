-- ===== src/Power.antt =====
-- Power profiles: power/power.c. What the files give when they are read, and which of them take a
-- write, are inputs. Failed writes are only logged in the source, except that of `boostpulse`.
pub mod Profiles
pub mod Frequencies
pub mod Applied
mod Tests
use device_samsung_msm8660_c.Common.{
  ℕ, Bool, true, false, ◌&&◌, ◌||◌, not, Option, none, some, List, [], ◌∷◌, ◌++◌, codes, take, ◌==◌,
  if◌then◌else◌, is_nil,
}
use device_samsung_msm8660_c.Agps.Types.{Text}
use device_samsung_msm8660_c.Power.Profiles.{
  Profile, power_save, balanced, high_performance, bias_power, bias_performance, OndemandSettings,
  InteractiveSettings, AltSettings, ondemand_profiles, interactive_profiles, alt_profiles,
}

-- The files: those of `INPUT_BOOST_PATH` (the path itself too), `ONDEMAND_PATH`, `INTERACTIVE_PATH` and
-- `CPUFREQ_PATH`, and the GPU's governor.
pub data SysfsFile : Type 0 where
  boost_directory boost_enabled boost_freqs : SysfsFile
  ondemand_file interactive_file : Text → SysfsFile
  boostpulse scaling_max scaling_min gpu_governor_file : SysfsFile

-- `sysfs_write_int`, `sysfs_write_str`, or the bytes of a buffer.
pub data SysfsValue : Type 0 where
  as_int : ℕ → SysfsValue
  as_str : Text → SysfsValue
  as_bytes : List ℕ → SysfsValue

-- The static variables (`current_power_profile` is none for -1), whether `boostpulse_fd` is open, and
-- the writes that succeeded, the first first.
pub record PowerState : Type 0 where
  pub current_power_profile : Option Profile
  pub governor : Text
  pub boostpulse_open : Bool
  pub writes : List (SysfsFile × SysfsValue)

-- What the governor's file gives, if it can be read; whether `sysfs_write_str` opens and writes a file;
-- whether `boostpulse` opens and takes a write; and what the buffer holds behind the "1" and its end.
pub record PowerIo : Type 0 where
  pub governor_read : Option Text
  pub takes : SysfsFile → Bool
  pub boost_opens : Bool
  pub boost_written : Bool
  pub junk : List ℕ

unfoldable pub start_state : PowerState
start_state = record {
  current_power_profile = none;
  governor = [];
  boostpulse_open = false;
  writes = [];
}

abbrev pub is_line_end : ℕ → Bool
is_line_end c = c == 10 || c == 13

-- The loop of `get_scaling_governor`, which cuts line ends off.
unfoldable pub without_line_end : Text → Text
without_line_end [] = []
without_line_end (c ∷ t) =
    let rest = without_line_end t in if is_nil rest && is_line_end c then [] else c ∷ rest

-- `strncmp` with the length of the second text.
unfoldable pub starts_with : Text → Text → Bool
starts_with t [] = true
starts_with [] (d ∷ u) = false
starts_with (c ∷ t) (d ∷ u) = c == d && starts_with t u

abbrev pub index : Profile → ℕ
index power_save = 0
index balanced = 1
index high_performance = 2
index bias_power = 3
index bias_performance = 4

-- `is_profile_valid`, with the profile; an `int` is a number of 32 bits here.
abbrev pub profile_of : ℕ → Option Profile
profile_of n =
    if n == 0
    then some power_save
    else if n == 1
    then some balanced
    else if n == 2
    then some high_performance
    else if n == 3
    then some bias_power
    else if n == 4
    then some bias_performance
    else none

abbrev pub is_current : Profile → Option Profile → Bool
is_current p none = false
is_current p (some q) = index p == index q

-- The writes of `set_power_profile` for each of the three kinds of governor.
abbrev pub ondemand_writes : OndemandSettings → List (SysfsFile × SysfsValue)
ondemand_writes o =
    (boost_enabled, as_int o.input_boost_on)
    ∷ (ondemand_file (codes "up_threshold"), as_int o.up_threshold)
    ∷ (ondemand_file (codes "io_is_busy"), as_int o.io_is_busy)
    ∷ (ondemand_file (codes "sampling_down_factor"), as_int o.sampling_down_factor)
    ∷ (ondemand_file (codes "down_differential"), as_int o.down_differential)
    ∷ (ondemand_file (codes "up_threshold_multi_core"), as_int o.up_threshold_multi_core)
    ∷ (ondemand_file (codes "down_differential_multi_core"), as_int o.down_differential_multi_core)
    ∷ (ondemand_file (codes "optimal_freq"), as_int o.optimal_freq)
    ∷ (ondemand_file (codes "sync_freq"), as_int o.sync_freq)
    ∷ (ondemand_file (codes "up_threshold_any_cpu_load"), as_int o.up_threshold_any_cpu_load)
    ∷ (ondemand_file (codes "sampling_rate"), as_int o.sampling_rate)
    ∷ (scaling_max, as_int o.scaling_max_freq)
    ∷ (scaling_min, as_int o.scaling_min_freq)
    ∷ (boost_freqs, as_str o.input_boost_freqs)
    ∷ (gpu_governor_file, as_str o.gpu_governor)
    ∷ []

abbrev pub interactive_writes : InteractiveSettings → List (SysfsFile × SysfsValue)
interactive_writes i =
    (boost_directory, as_int i.input_boost_on)
    ∷ (interactive_file (codes "boost"), as_int i.boost)
    ∷ (interactive_file (codes "boostpulse_duration"), as_int i.boostpulse_duration)
    ∷ (interactive_file (codes "go_hispeed_load"), as_int i.go_hispeed_load)
    ∷ (interactive_file (codes "hispeed_freq"), as_int i.hispeed_freq)
    ∷ (interactive_file (codes "io_is_busy"), as_int i.io_is_busy)
    ∷ (interactive_file (codes "min_sample_time"), as_int i.min_sample_time)
    ∷ (interactive_file (codes "sampling_down_factor"), as_int i.sampling_down_factor)
    ∷ (interactive_file (codes "target_loads"), as_str i.target_loads)
    ∷ (scaling_max, as_int i.scaling_max_freq)
    ∷ (scaling_min, as_int i.scaling_min_freq)
    ∷ (boost_freqs, as_str i.input_boost_freqs)
    ∷ (gpu_governor_file, as_str i.gpu_governor)
    ∷ []

abbrev pub alt_writes : AltSettings → List (SysfsFile × SysfsValue)
alt_writes a =
    (boost_directory, as_int a.input_boost_on)
    ∷ (scaling_max, as_int a.scaling_max_freq)
    ∷ (scaling_min, as_int a.scaling_min_freq)
    ∷ (boost_freqs, as_str a.input_boost_freqs)
    ∷ (gpu_governor_file, as_str a.gpu_governor)
    ∷ []

unfoldable pub settings : Profile → (governor : Text) → List (SysfsFile × SysfsValue)
unfolding starts_with
settings p g =
    if starts_with g (codes "ondemand")
    then ondemand_writes (ondemand_profiles p)
    else if starts_with g (codes "interactive")
    then interactive_writes (interactive_profiles p)
    else alt_writes (alt_profiles p)

-- The writes that succeed: one that fails is logged and the next is made.
unfoldable pub taken :
    (SysfsFile → Bool) → List (SysfsFile × SysfsValue) → List (SysfsFile × SysfsValue)
taken ok [] = []
taken ok ((f, v) ∷ ws) = let rest = taken ok ws in if ok f then (f, v) ∷ rest else rest

-- `get_scaling_governor` and the writes; nothing is written where the governor cannot be read. The
-- buffer takes 19 characters.
unfoldable pub apply_profile : PowerIo → Profile → PowerState → PowerState
unfolding settings without_line_end taken
apply_profile io p s = elim io.governor_read [
  | none ↦ s
  | some raw ↦
      let g = without_line_end (take 19 raw) in
      record s { governor = g; writes = s.writes ++ taken io.takes (settings p g) }
]

-- `set_power_profile` with what `is_profile_valid` found.
unfoldable pub choose_profile : PowerIo → Option Profile → PowerState → PowerState
unfolding apply_profile
choose_profile io none s = s
choose_profile io (some p) s =
    if is_current p s.current_power_profile
    then s
    else record (apply_profile io p s) { current_power_profile = some p }

unfoldable pub set_power_profile : PowerIo → ℕ → PowerState → PowerState
unfolding choose_profile
set_power_profile io profile s = choose_profile io (profile_of profile) s

-- `power_set_interactive`, whose second argument is not used, by the current profile.
abbrev pub interactive_of : PowerIo → Option Profile → PowerState → PowerState
interactive_of io none s = s
interactive_of io (some p) s =
    let i = interactive_profiles p in
    record s {
      writes =
          s.writes
          ++ taken io.takes (
              (interactive_file (codes "hispeed_freq"), as_int i.hispeed_freq)
              ∷ (interactive_file (codes "go_hispeed_load"), as_int i.go_hispeed_load)
              ∷ (interactive_file (codes "target_loads"), as_str i.target_loads)
              ∷ []);
    }

unfoldable pub power_set_interactive : PowerIo → PowerState → PowerState
unfolding taken
power_set_interactive io s = interactive_of io s.current_power_profile s

-- The whole buffer is written: "1", its end and what lies behind. After a failed write it is closed.
unfoldable pub pulse : PowerIo → PowerState → PowerState
pulse io s =
    let open_now = s.boostpulse_open || io.boost_opens in
    let written = record s {
      boostpulse_open = io.boost_written;
      writes =
          if io.boost_written
          then s.writes ++ (boostpulse, as_bytes (49 ∷ 0 ∷ io.junk)) ∷ []
          else s.writes;
    } in
    if open_now then written else s

pub data Hint : Type 0 where
  interaction low_power other_hint : Hint
  set_profile : ℕ → Hint

abbrev pub boost_of : PowerIo → Option Profile → PowerState → PowerState
boost_of io none s = s
boost_of io (some p) s = if (interactive_profiles p).boostpulse_duration == 0 then s else pulse io s

unfoldable pub power_hint : PowerIo → Hint → PowerState → PowerState
unfolding pulse set_power_profile
power_hint io interaction s = boost_of io s.current_power_profile s
power_hint io (set_profile n) s = set_power_profile io n s
power_hint io low_power s = s
power_hint io other_hint s = s

-- The calls of the framework.
pub data PowerCall : Type 0 where
  set_interactive : PowerCall
  hint : Hint → PowerCall

unfoldable pub power_call : PowerIo → PowerCall → PowerState → PowerState
unfolding power_hint power_set_interactive
power_call io set_interactive s = power_set_interactive io s
power_call io (hint h) s = power_hint io h s

unfoldable pub power_calls : List (PowerIo × PowerCall) → PowerState → PowerState
unfolding power_call
power_calls [] s = s
power_calls ((io, c) ∷ cs) s = power_calls cs (power_call io c s)
