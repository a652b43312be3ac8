-- ===== src/LinkedList/Add.antt =====
-- `linked_list_add` puts an object in front.
use device_samsung_msm8660_c.Common.{
  ℕ, ◌≡◌, ◌≢◌, refl, false, Option, none, some, List, [], ◌∷◌, arith, ◌==◌,
}
use device_samsung_msm8660_c.LinkedList.Store.{
  Ptr, null, Element, ListState, ListErr, success, Store, write, modify, load_state, ok,
}
use device_samsung_msm8660_c.LinkedList.Code.{link_head, linked_list_add}
use device_samsung_msm8660_c.LinkedList.Chain.{
  Node, element, first, last, has, Chain, IsList, Chain-write, Chain-relink_prev,
}
use device_samsung_msm8660_c.LinkedList.Returns.{Returns, Spares}

not-has_of_none :
    (c : Ptr → Option Element) (a start stop : Ptr) (ns : List Node)
    → c a ≡ none
    → Chain c start ns stop
    → has a ns ≡ false
not-has_of_none c a start stop [] free h = refl
not-has_of_none c a start stop (n ∷ ns) free h =
    ground (arith, not-has_of_none c a n.addr stop ns free)

ne_false : (a b : ℕ) → a ≢ b → (a == b) ≡ false
ne_false a b h = ground arith

module _ {W : Type 0} (s : Store W) (h fresh data_obj dealloc : Ptr) where
  abbrev pub added : Node
  added = record { addr = fresh; data_ptr = data_obj; dealloc_func = dealloc }

  abbrev pub Added : List Node → ListErr → Store W → Type 0
  Added ns r s' =
      (r ≡ success) × IsList s' h (added ∷ ns) × Spares h (added ∷ ns) s s' × (s'.world ≡ s.world)

  abbrev fresh_cell : Ptr → Ptr → Option Element
  fresh_cell next =
      write (write s.cells fresh (some (element added null null))) fresh
        (some (element added next null))

  abbrev state_of : Ptr → Ptr → Option ListState
  state_of head tail = some (record { p_head = head; p_tail = tail })

  abbrev store_first : Store W
  store_first = record s {
    cells = fresh_cell null;
    states = write (write s.states h (state_of fresh null)) h (state_of fresh fresh);
  }

  abbrev store_more : Node → List Node → Store W
  store_more n ns = record s {
    cells = write (fresh_cell n.addr) n.addr (some (element n (first ns null) fresh));
    states = write s.states h (state_of fresh (last ns n.addr));
  }

  run_first :
      IsList s h []
      → data_obj ≢ null
      → fresh ≢ null
      → linked_list_add h data_obj dealloc fresh s ≡ ok success store_first
  unfolding linked_list_add link_head modify load_state
  run_first is datum room = ground (arith, is.state)

  run_more :
      (n : Node) (ns : List Node)
      → IsList s h (n ∷ ns)
      → data_obj ≢ null
      → fresh ≢ null
      → n.addr ≢ fresh
      → linked_list_add h data_obj dealloc fresh s ≡ ok success (store_more n ns)
  unfolding linked_list_add link_head modify load_state
  run_more n ns is datum room apart = ground (arith, is.state, is.chain.0, is.distinct.0)

  -- With memory for the element, a datum is put in front, and nothing else changes.
  pub linked_list_add-cons :
      (ns : List Node)
      → IsList s h ns
      → data_obj ≢ null
      → fresh ≢ null
      → s.cells fresh ≡ none
      → Returns (Added ns) (linked_list_add h data_obj dealloc fresh s)
  linked_list_add-cons [] is datum room free = rw (run_first is datum room) (
    refl,
    record {
      handle = is.handle;
      state = ground arith;
      chain = (ground arith, tt);
      distinct = (room, refl, tt);
    },
    record { cells = λ a out. ground arith; states = λ g ne. ground arith },
    refl,
  )
  linked_list_add-cons (n ∷ ns) is datum room free =
      let out = not-has_of_none s.cells fresh null null (n ∷ ns) free is.chain in
      let all = n ∷ ns in
      let bare = s.cells in
      let kept =
        Chain-write _ fresh _ all null null out
          (Chain-write bare fresh _ all null null out is.chain) in
      let relinked = Chain-relink_prev (fresh_cell n.addr) n ns null fresh null is.distinct kept in
      rw (run_more n ns is datum room (ground arith)) (
        refl,
        record {
          handle = is.handle;
          state = ground arith;
          chain = (ground arith, relinked);
          distinct = (room, out, is.distinct);
        },
        record { cells = λ a o. ground arith; states = λ g ne. ground arith },
        refl,
      )
