-- ===== src/ConfReader/Trim.antt =====
-- `trim_space`: pointers into a string that is changed in place.
pub mod Loop
pub mod Trimmed
use device_samsung_msm8660_c.Common.{
  ℕ, zero, suc, ◌+◌, Bool, true, false, ◌&&◌, ◌||◌, not, Option, none, some, List, [], ◌∷◌, ltb,
  ◌==◌, if◌then◌else◌, is_some, is_nil,
}
use device_samsung_msm8660_c.Agps.Types.{Text}

-- The bytes by address.
abbrev pub Memory : Type 0
Memory = ℕ → ℕ

unfoldable pub store : Memory → ℕ → ℕ → Memory
store m a c = λ x. if x == a then c else m x

-- `isspace`: the blank and the codes from tabulator to carriage return.
unfoldable pub is_space : ℕ → Bool
is_space c = c == 32 || not (ltb c 9) && ltb c 14

-- The local variables, and the memory.
pub record Trimming : Type 0 where
  pub memory : Memory
  pub scan_ptr : ℕ
  pub write_ptr : ℕ
  pub first_nonspace : Option ℕ
  pub last_nonspace : Option ℕ

-- The body of the loop.
unfoldable pub trim_step : Trimming → Trimming
unfolding is_space store
trim_step t =
    let c = t.memory t.scan_ptr in
    let first =
      if not (is_space c) && not (is_some t.first_nonspace)
      then some t.scan_ptr
      else t.first_nonspace in
    let copied = record t {
      memory = store t.memory t.write_ptr c;
      scan_ptr = t.scan_ptr + 1;
      write_ptr = t.write_ptr + 1;
      first_nonspace = first;
      last_nonspace = if is_space c then t.last_nonspace else some (t.write_ptr + 1);
    } in
    if is_some first then copied else record t { scan_ptr = t.scan_ptr + 1 }

-- The loop, on fuel; none where the fuel does not reach the end of the string.
unfoldable pub trim_loop : ℕ → Trimming → Option Trimming
unfolding trim_step
trim_loop zero t = none
trim_loop (suc n) t =
    let rest = trim_loop n (trim_step t) in if t.memory t.scan_ptr == 0 then some t else rest

-- The end of the string is put behind the last character that is no space.
abbrev pub cut : Option Trimming → Option Memory
cut none = none
cut (some t) = some (elim t.last_nonspace [ none ↦ t.memory | some a ↦ store t.memory a 0 ])

-- `trim_space` on the string at an address.
unfoldable pub trim_space : (fuel : ℕ) → ℕ → Memory → Option Memory
unfolding trim_loop store
trim_space fuel org_string m = cut (
    trim_loop fuel (record {
      memory = m;
      scan_ptr = org_string;
      write_ptr = org_string;
      first_nonspace = none;
      last_nonspace = none;
    }))
