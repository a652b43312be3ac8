-- ===== src/LinkedList/Errors.antt =====
-- The error paths of gps/utils/linked_list.c.
use device_samsung_msm8660_c.Common.{
  ℕ, ◌≡◌, ◌≢◌, refl, Bool, true, false, none, some, List, [], ◌∷◌, arith, is_nil,
}
use device_samsung_msm8660_c.LinkedList.Store.{
  Ptr, null, failure_general, invalid_parameter, invalid_handle, Store, ok, load_state,
}
use device_samsung_msm8660_c.LinkedList.Code.{
  linked_list_init, linked_list_add, linked_list_remove, linked_list_empty, linked_list_flush,
  linked_list_destroy, linked_list_search,
}
use device_samsung_msm8660_c.LinkedList.Chain.{Node, IsList}

module _ {W : Type 0} (s : Store W) (call : Ptr → Ptr → W → W) where
  -- Whatever the other arguments, a null handle is refused by every function that takes one, a null
  -- datum or output pointer by those that need it, and a failed allocation is reported; the store
  -- stays as it was.
  pub refused :
      (h datum dealloc fresh : Ptr) (fuel : ℕ) (out_null copy rm : Bool)
      (equal : Ptr → W → Bool × W)
      → h ≢ null
      → datum ≢ null
      → (linked_list_add null datum dealloc fresh s ≡ ok invalid_handle s)
        × (linked_list_remove null out_null s ≡ ok (invalid_handle, none) s)
        × (linked_list_empty null s ≡ ok none s)
        × (linked_list_flush call fuel null s ≡ ok invalid_handle s)
        × (linked_list_destroy call fuel none s ≡ ok invalid_handle s)
        × (linked_list_search call equal fuel null copy rm s ≡ ok (invalid_handle, none) s)
        × (linked_list_add h null dealloc fresh s ≡ ok invalid_parameter s)
        × (linked_list_remove h true s ≡ ok (invalid_parameter, none) s)
        × (linked_list_add h datum dealloc null s ≡ ok failure_general s)
        × (linked_list_init true fresh s ≡ ok (invalid_parameter, none) s)
        × (linked_list_init false null s ≡ ok (failure_general, none) s)
  unfolding linked_list_init linked_list_add linked_list_remove linked_list_empty linked_list_flush
      linked_list_destroy linked_list_search
  refused h datum dealloc fresh fuel out_null copy rm equal handle real =
      (refl, refl, refl, refl, refl, refl, ground arith, ground arith, ground arith, refl, refl)

-- `linked_list_empty` says whether the list has a node.
pub linked_list_empty_lem :
    {W : Type 0} (s : Store W) (h : Ptr) (ns : List Node)
    → IsList s h ns
    → linked_list_empty h s ≡ ok (some (is_nil ns)) s
unfolding linked_list_empty load_state
linked_list_empty_lem s h [] is = ground (arith, is.state, is.handle)
linked_list_empty_lem s h (n ∷ ns) is = ground (arith, is.state, is.handle, is.distinct.0)
