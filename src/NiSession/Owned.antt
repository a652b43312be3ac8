-- ===== src/NiSession/Owned.antt =====
-- What becomes of a raw request.
use device_samsung_msm8660_c.Common.{
  ℕ, ◌+◌, ◌≡◌, false, Option, none, some, List, [], ◌∷◌, ◌==◌, if◌then◌else◌,
}
use device_samsung_msm8660_c.NiSession.{Ni, Inform}

-- How often an address stands in a list.
abbrev pub count : ℕ → List ℕ → ℕ
count r [] = 0
count r (q ∷ qs) = (if r == q then 1 else 0) + count r qs

abbrev pub count_held : ℕ → Option ℕ → ℕ
count_held r none = 0
count_held r (some q) = if r == q then 1 else 0

abbrev pub count_informed : ℕ → List Inform → ℕ
count_informed r [] = 0
count_informed r (i ∷ is) = (if r == i.raw then 1 else 0) + count_informed r is

abbrev pub count_msg : ℕ → Option Inform → ℕ
count_msg r none = 0
count_msg r (some i) = if r == i.raw then 1 else 0

abbrev pub count_leaving : ℕ → List (Option Inform) → ℕ
count_leaving r [] = 0
count_leaving r (m ∷ ms) = count_msg r m + count_leaving r ms

-- Where the requests with an address are.
unfoldable pub owned : ℕ → Ni → ℕ
owned r s =
    count r s.freed
    + count r s.dropped
    + count_informed r s.informed
    + count_held r s.raw_request
    + count_leaving r s.leaving

-- Before the interface is initialised there is no session.
pub record IsAccounted (r : ℕ) (s : Ni) : Type 0 where
  pub quiet : s.ni_notify_cb ≡ false → s.raw_request ≡ none
  pub all : count r s.arrived ≡ owned r s
