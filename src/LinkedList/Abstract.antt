-- ===== src/LinkedList/Abstract.antt =====
-- What gps/utils/linked_list.c does to the sequence of objects in a list, head first: the view that
-- the list's clients work with. The callbacks may act on a state `W` of their own.
use device_samsung_msm8660_c.Common.{
  Bool, ◌&&◌, not, Option, none, some, List, [], ◌∷◌, if◌then◌else◌,
}

pub record Search (A W : Type 0) : Type 0 where
  -- the object that `equal` accepted; it is stored through `data_p` where that is not null
  pub found : Option A
  pub objects : List A
  pub world : W

module _ {A W : Type 0} where
  -- `linked_list_search` stops at the first object that `equal` accepts, and takes it out if
  -- `rm_if_found`. `copy_out` says that `data_p` is not null: only without it is `dealloc` called.
  unfoldable pub search :
      (copy_out : Bool) (equal : A → W → Bool × W) (rm_if_found : Bool) (dealloc : A → W → W)
      → List A
      → W
      → Search A W
  search copy_out equal rm_if_found dealloc [] w = record { found = none; objects = []; world = w }
  search copy_out equal rm_if_found dealloc (x ∷ xs) w =
      let (hit, w') = equal x w in
      let rest = search copy_out equal rm_if_found dealloc xs w' in
      if hit
      then record {
        found = some x;
        objects = if rm_if_found then xs else x ∷ xs;
        world = if rm_if_found && not copy_out then dealloc x w' else w';
      }
      else record { found = rest.found; objects = x ∷ rest.objects; world = rest.world }

  -- `linked_list_flush` hands every object to its `dealloc`, head first.
  unfoldable pub flush : (dealloc : A → W → W) → List A → W → W
  flush dealloc [] w = w
  flush dealloc (x ∷ xs) w = flush dealloc xs (dealloc x w)

module _ {A : Type 0} where
  -- `linked_list_remove` takes the object at the tail.
  unfoldable pub remove : List A → Option (A × List A)
  remove [] = none
  remove (x ∷ xs) = elim (remove xs) [ none ↦ some (x, []) | some (y, ys) ↦ some (y, x ∷ ys) ]
