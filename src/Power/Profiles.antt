-- ===== src/Power/Profiles.antt =====
-- The tables of power/power.h.
use device_samsung_msm8660_c.Common.{ℕ, codes}
use device_samsung_msm8660_c.Agps.Types.{Text}

-- The profiles with settings; `PROFILE_MAX` is their number.
pub data Profile : Type 0 where
  power_save balanced high_performance bias_power bias_performance : Profile

-- `ondemand_governor_settings`
pub record OndemandSettings : Type 0 where
  pub input_boost_on : ℕ
  pub up_threshold : ℕ
  pub io_is_busy : ℕ
  pub sampling_down_factor : ℕ
  pub down_differential : ℕ
  pub up_threshold_multi_core : ℕ
  pub down_differential_multi_core : ℕ
  pub optimal_freq : ℕ
  pub sync_freq : ℕ
  pub up_threshold_any_cpu_load : ℕ
  pub sampling_rate : ℕ
  pub scaling_max_freq : ℕ
  pub scaling_min_freq : ℕ
  pub input_boost_freqs : Text
  pub gpu_governor : Text

abbrev pub ondemand_profiles : Profile → OndemandSettings
ondemand_profiles power_save = record {
  input_boost_on = 0;
  up_threshold = 90;
  io_is_busy = 0;
  sampling_down_factor = 2;
  down_differential = 10;
  up_threshold_multi_core = 70;
  down_differential_multi_core = 3;
  optimal_freq = 486000;
  sync_freq = 540000;
  up_threshold_any_cpu_load = 80;
  sampling_rate = 50000;
  scaling_max_freq = 1026000;
  scaling_min_freq = 192000;
  input_boost_freqs = codes "756000 540000";
  gpu_governor = codes "ondemand";
}
ondemand_profiles bias_power = record {
  input_boost_on = 1;
  up_threshold = 90;
  io_is_busy = 1;
  sampling_down_factor = 2;
  down_differential = 10;
  up_threshold_multi_core = 70;
  down_differential_multi_core = 3;
  optimal_freq = 918000;
  sync_freq = 1026000;
  up_threshold_any_cpu_load = 80;
  sampling_rate = 50000;
  scaling_max_freq = 1026000;
  scaling_min_freq = 192000;
  input_boost_freqs = codes "972000 864000";
  gpu_governor = codes "ondemand";
}
ondemand_profiles balanced = record {
  input_boost_on = 1;
  up_threshold = 90;
  io_is_busy = 1;
  sampling_down_factor = 2;
  down_differential = 10;
  up_threshold_multi_core = 70;
  down_differential_multi_core = 3;
  optimal_freq = 918000;
  sync_freq = 1026000;
  up_threshold_any_cpu_load = 80;
  sampling_rate = 50000;
  scaling_max_freq = 1512000;
  scaling_min_freq = 384000;
  input_boost_freqs = codes "1242000 1026000";
  gpu_governor = codes "ondemand";
}
ondemand_profiles bias_performance = record {
  input_boost_on = 1;
  up_threshold = 90;
  io_is_busy = 1;
  sampling_down_factor = 2;
  down_differential = 10;
  up_threshold_multi_core = 70;
  down_differential_multi_core = 3;
  optimal_freq = 918000;
  sync_freq = 1026000;
  up_threshold_any_cpu_load = 80;
  sampling_rate = 50000;
  scaling_max_freq = 1512000;
  scaling_min_freq = 756000;
  input_boost_freqs = codes "1242000 1026000";
  gpu_governor = codes "ondemand";
}
ondemand_profiles high_performance = record {
  input_boost_on = 0;
  up_threshold = 90;
  io_is_busy = 1;
  sampling_down_factor = 2;
  down_differential = 10;
  up_threshold_multi_core = 70;
  down_differential_multi_core = 3;
  optimal_freq = 1512000;
  sync_freq = 1512000;
  up_threshold_any_cpu_load = 80;
  sampling_rate = 50000;
  scaling_max_freq = 1512000;
  scaling_min_freq = 1512000;
  input_boost_freqs = codes "1512000 1512000";
  gpu_governor = codes "performance";
}

-- `interactive_governor_settings`
pub record InteractiveSettings : Type 0 where
  pub input_boost_on : ℕ
  pub boost : ℕ
  pub boostpulse_duration : ℕ
  pub go_hispeed_load : ℕ
  pub hispeed_freq : ℕ
  pub io_is_busy : ℕ
  pub min_sample_time : ℕ
  pub sampling_down_factor : ℕ
  pub target_loads : Text
  pub scaling_max_freq : ℕ
  pub scaling_min_freq : ℕ
  pub input_boost_freqs : Text
  pub gpu_governor : Text

abbrev pub interactive_profiles : Profile → InteractiveSettings
interactive_profiles power_save = record {
  input_boost_on = 1;
  boost = 0;
  boostpulse_duration = 0;
  go_hispeed_load = 90;
  hispeed_freq = 486000;
  io_is_busy = 0;
  min_sample_time = 60000;
  sampling_down_factor = 100000;
  target_loads = codes "95";
  scaling_max_freq = 1026000;
  scaling_min_freq = 192000;
  input_boost_freqs = codes "756000 540000";
  gpu_governor = codes "ondemand";
}
interactive_profiles bias_power = record {
  input_boost_on = 1;
  boost = 0;
  boostpulse_duration = 0;
  go_hispeed_load = 90;
  hispeed_freq = 486000;
  io_is_busy = 0;
  min_sample_time = 60000;
  sampling_down_factor = 100000;
  target_loads = codes "95";
  scaling_max_freq = 1026000;
  scaling_min_freq = 192000;
  input_boost_freqs = codes "972000 864000";
  gpu_governor = codes "ondemand";
}
interactive_profiles balanced = record {
  input_boost_on = 1;
  boost = 0;
  boostpulse_duration = 80000;
  go_hispeed_load = 90;
  hispeed_freq = 918000;
  io_is_busy = 1;
  min_sample_time = 80000;
  sampling_down_factor = 100000;
  target_loads = codes "90";
  scaling_max_freq = 1512000;
  scaling_min_freq = 384000;
  input_boost_freqs = codes "1242000 1026000";
  gpu_governor = codes "ondemand";
}
interactive_profiles bias_performance = record {
  input_boost_on = 1;
  boost = 0;
  boostpulse_duration = 80000;
  go_hispeed_load = 90;
  hispeed_freq = 918000;
  io_is_busy = 1;
  min_sample_time = 80000;
  sampling_down_factor = 100000;
  target_loads = codes "90";
  scaling_max_freq = 1512000;
  scaling_min_freq = 756000;
  input_boost_freqs = codes "1242000 1026000";
  gpu_governor = codes "ondemand";
}
interactive_profiles high_performance = record {
  input_boost_on = 0;
  boost = 1;
  boostpulse_duration = 0;
  go_hispeed_load = 50;
  hispeed_freq = 1242000;
  io_is_busy = 1;
  min_sample_time = 60000;
  sampling_down_factor = 100000;
  target_loads = codes "80";
  scaling_max_freq = 1512000;
  scaling_min_freq = 384000;
  input_boost_freqs = codes "1512000 1512000";
  gpu_governor = codes "performance";
}

-- `alt_governor_settings`
pub record AltSettings : Type 0 where
  pub input_boost_on : ℕ
  pub scaling_max_freq : ℕ
  pub scaling_min_freq : ℕ
  pub input_boost_freqs : Text
  pub gpu_governor : Text

abbrev pub alt_profiles : Profile → AltSettings
alt_profiles power_save = record {
  input_boost_on = 1;
  scaling_max_freq = 1026000;
  scaling_min_freq = 192000;
  input_boost_freqs = codes "756000 540000";
  gpu_governor = codes "ondemand";
}
alt_profiles bias_power = record {
  input_boost_on = 1;
  scaling_max_freq = 1026000;
  scaling_min_freq = 192000;
  input_boost_freqs = codes "972000 864000";
  gpu_governor = codes "ondemand";
}
alt_profiles balanced = record {
  input_boost_on = 1;
  scaling_max_freq = 1512000;
  scaling_min_freq = 384000;
  input_boost_freqs = codes "1242000 1026000";
  gpu_governor = codes "ondemand";
}
alt_profiles bias_performance = record {
  input_boost_on = 1;
  scaling_max_freq = 1512000;
  scaling_min_freq = 756000;
  input_boost_freqs = codes "1242000 1026000";
  gpu_governor = codes "ondemand";
}
alt_profiles high_performance = record {
  input_boost_on = 0;
  scaling_max_freq = 1512000;
  scaling_min_freq = 384000;
  input_boost_freqs = codes "1512000 1512000";
  gpu_governor = codes "performance";
}
