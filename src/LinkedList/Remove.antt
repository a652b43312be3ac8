-- ===== src/LinkedList/Remove.antt =====
-- `linked_list_remove` takes the object at the tail.
use device_samsung_msm8660_c.Common.{
  ◌≡◌, ◌≢◌, refl, false, Option, none, some, List, [], ◌∷◌, ◌++◌, arith, ◌==◌,
}
use device_samsung_msm8660_c.LinkedList.Store.{
  Ptr, null, Element, ListErr, success, unavailable_resource, Store, write, modify, load, free,
  load_state, ok,
}
use device_samsung_msm8660_c.LinkedList.Code.{set_next, unlink_tail, linked_list_remove}
use device_samsung_msm8660_c.LinkedList.Chain.{
  Node, element, last, has, IsList, Chain-write, Chain-split, Chain-relink_next, last-append,
  last-ne_null, has-last, Distinct-front, Distinct-back, Distinct-apart, has-append, has-apart,
  has-apart,
}
use device_samsung_msm8660_c.LinkedList.Returns.{Returns, Spares}

module _ {W : Type 0} (s : Store W) (h : Ptr) where
  -- From an empty list nothing is taken.
  pub linked_list_remove-nil :
      IsList s h [] → linked_list_remove h false s ≡ ok (unavailable_resource, none) s
  unfolding linked_list_remove load_state
  linked_list_remove-nil is = ground (arith, is.state)

  module _ (n : Node) where
    abbrev pub Removed : List Node → ListErr × Option Ptr → Store W → Type 0
    Removed ns r s' =
        (r ≡ (success, some n.data_ptr))
        × IsList s' h ns
        × Spares h (ns ++ n ∷ []) s s'
        × (s'.cells n.addr ≡ none)
        × (s'.world ≡ s.world)

    abbrev store_one : Store W
    store_one = record s {
      cells = write s.cells n.addr none;
      states = write s.states h (some (record { p_head = null; p_tail = null }));
    }

    run_one :
        IsList s h (n ∷ []) → linked_list_remove h false s ≡ ok (success, some n.data_ptr) store_one
    unfolding linked_list_remove unlink_tail modify load free load_state
    run_one is = ground (arith, is.state, is.chain.0, is.distinct.0)

    abbrev store_rest : Node → List Node → Element → Store W
    store_rest x xs e = record s {
      cells = write (write s.cells (last xs x.addr) (some (set_next null e))) n.addr none;
      states = write s.states h (some (record { p_head = x.addr; p_tail = last xs x.addr }));
    }

    run_rest :
        (x : Node) (xs : List Node) (e : Element)
        → h ≢ null
        → n.addr ≢ null
        → s.states h ≡ some (record { p_head = x.addr; p_tail = n.addr })
        → s.cells n.addr ≡ some (element n null (last xs x.addr))
        → s.cells (last xs x.addr) ≡ some e
        → last xs x.addr ≢ null
        → (n.addr == last xs x.addr) ≡ false
        → linked_list_remove h false s ≡ ok (success, some n.data_ptr) (store_rest x xs e)
    unfolding linked_list_remove unlink_tail modify load free load_state
    run_rest x xs e handle real state at before ne apart = ground arith

    -- The cells outside the list are not written.
    spared :
        (x : Node) (xs : List Node) (e : Element) (a : Ptr)
        → has a ((x ∷ xs) ++ n ∷ []) ≡ false
        → (store_rest x xs e).cells a ≡ s.cells a
    spared x xs e a out =
        let e1 = has-append a (x ∷ xs) (n ∷ []) in
        let here : has a (x ∷ xs) ≡ false = ground (arith, e1) in
        let there : (a == n.addr) ≡ false = ground (arith, e1) in
        rw (there, has-apart (last xs x.addr) a (x ∷ xs) (has-last x xs) here)

    -- From a list that is not empty the object at the tail is taken, its element is freed, and nothing
    -- else changes.
    pub linked_list_remove-snoc :
        (ns : List Node)
        → IsList s h (ns ++ n ∷ [])
        → Returns (Removed ns) (linked_list_remove h false s)
    linked_list_remove-snoc [] is = rw (run_one is) (
      refl,
      record { handle = is.handle; state = ground arith; chain = tt; distinct = tt },
      record { cells = λ a out. ground arith; states = λ g ne. ground arith },
      ground arith,
      refl,
    )
    linked_list_remove-snoc (x ∷ xs) is =
        let (front, back) = Chain-split s.cells (x ∷ xs) (n ∷ []) null null is.chain in
        let dx = Distinct-front (x ∷ xs) (n ∷ []) is.distinct in
        let (e, at, relinked) = Chain-relink_next s.cells x xs null n.addr null dx front in
        let real = (Distinct-back (x ∷ xs) (n ∷ []) is.distinct).0 in
        let out = Distinct-apart n.addr (x ∷ xs) (n ∷ []) is.distinct (ground arith) in
        let apart : (n.addr == last xs x.addr) ≡ false =
          has-apart (last xs x.addr) n.addr (x ∷ xs) (has-last x xs) out in
        let state : s.states h ≡ some (record { p_head = x.addr; p_tail = n.addr }) =
          rw (last-append xs (n ∷ []) x.addr) at is.state in
        rw (run_rest x xs e is.handle real state back.0 at (last-ne_null x xs dx) apart) (
          refl,
          record {
            handle = is.handle;
            state = ground arith;
            chain = Chain-write _ n.addr none (x ∷ xs) null null out relinked;
            distinct = dx;
          },
          record { cells = λ a o. spared x xs e a o; states = λ g ne. ground arith },
          ground arith,
          refl,
        )
