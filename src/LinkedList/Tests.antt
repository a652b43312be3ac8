-- ===== src/LinkedList/Tests.antt =====
-- The list's theorems at a list of two elements.
use device_samsung_msm8660_c.Common.{
  refl, Bool, true, false, Option, none, some, List, [], ◌∷◌, arith, ◌==◌, ℕ,
}
use device_samsung_msm8660_c.LinkedList.Store.{Ptr, Element, Store, write}
use device_samsung_msm8660_c.LinkedList.Code.{
  linked_list_add, linked_list_remove, linked_list_flush, linked_list_search,
}
use device_samsung_msm8660_c.LinkedList.Chain.{Node, element, IsList}
use device_samsung_msm8660_c.LinkedList.Returns.{Returns}
use device_samsung_msm8660_c.LinkedList.Add.{Added, linked_list_add-cons}
use device_samsung_msm8660_c.LinkedList.Remove.{Removed, linked_list_remove-snoc}
use device_samsung_msm8660_c.LinkedList.Search.{Searched, linked_list_search-Searched}
use device_samsung_msm8660_c.LinkedList.Flush.{Emptied, linked_list_flush-Emptied}

abbrev front : Node
front = record { addr = 10; data_ptr = 70; dealloc_func = 5 }

abbrev back : Node
back = record { addr = 20; data_ptr = 80; dealloc_func = 5 }

abbrev cells : Ptr → Option Element
cells = write (write (λ _. none) 10 (some (element front 20 0))) 20 (some (element back 0 10))

-- The world is the list of data pointers freed.
abbrev two : Store (List ℕ)
two = record {
  cells = cells;
  states = write (λ _. none) 1 (some (record { p_head = 10; p_tail = 20 }));
  world = [];
}

abbrev two_nodes : List Node
two_nodes = front ∷ back ∷ []

two-IsList : IsList two 1 two_nodes
two-IsList = record {
  handle = omega arith;
  state = refl;
  chain = (refl, (refl, tt));
  distinct = (omega arith, refl, (omega arith, refl, tt));
}

abbrev note : Ptr → Ptr → List ℕ → List ℕ
note f p freed = p ∷ freed

abbrev is_80 : Ptr → List ℕ → Bool × List ℕ
is_80 p freed = (p == 80, freed)

linked_list_add-cons_example :
    Returns (Added two 1 30 90 5 two_nodes) (linked_list_add 1 90 5 30 two)
linked_list_add-cons_example =
    linked_list_add-cons two 1 30 90 5 two_nodes two-IsList (omega arith) (omega arith) refl

linked_list_remove-snoc_example :
    Returns (Removed two 1 back (front ∷ [])) (linked_list_remove 1 false two)
linked_list_remove-snoc_example = linked_list_remove-snoc two 1 back (front ∷ []) two-IsList

linked_list_search-Searched_example :
    Returns
      (Searched note is_80 false true 1 two_nodes [])
      (linked_list_search note is_80 3 1 false true two)
linked_list_search-Searched_example =
    linked_list_search-Searched note is_80 false true 1 3 two two_nodes two-IsList (omega arith)

linked_list_flush-Emptied_example :
    Returns (Emptied note 1 two two_nodes) (linked_list_flush note 3 1 two)
linked_list_flush-Emptied_example =
    linked_list_flush-Emptied note 1 3 two two_nodes two-IsList (omega arith)
