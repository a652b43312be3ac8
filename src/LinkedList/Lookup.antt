-- ===== src/LinkedList/Lookup.antt =====
-- `linked_list_search` with a callback that only tests, and with nothing to take out.
use device_samsung_msm8660_c.Common.{Bool, false, ◌≡◌, refl, List, [], ◌∷◌, arith, find?}
use device_samsung_msm8660_c.LinkedList.Abstract.{search}

module _ {A W : Type 0} where
  pub search-found :
      (copy_out : Bool) (p : A → Bool) (dealloc : A → W → W) (xs : List A) (w : W)
      → (search copy_out (λ x v. (p x, v)) false dealloc xs w).found ≡ find? p xs
  unfolding search
  search-found copy_out p dealloc [] w = refl
  search-found copy_out p dealloc (x ∷ xs) w = ground (arith, search-found copy_out p dealloc xs w)
