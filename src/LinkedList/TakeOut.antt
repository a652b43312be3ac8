-- ===== src/LinkedList/TakeOut.antt =====
-- An element taken out of the middle of a list, in `linked_list_search`.
use device_samsung_msm8660_c.Common.{
  ◌≡◌, refl, ap, ◌∙◌, Bool, true, false, Option, none, some, List, [], ◌∷◌, ◌++◌, arith, ◌==◌,
  if◌then◌else◌,
}
use device_samsung_msm8660_c.LinkedList.Store.{
  Ptr, null, Element, ListState, Store, Run, write, modify, free, load_state, ok,
}
use device_samsung_msm8660_c.LinkedList.Code.{set_next, bypass_prev, bypass_next, take_out}
use device_samsung_msm8660_c.LinkedList.Chain.{
  Node, element, first, last, has, Chain, Distinct, IsList, Chain-write, Chain-split, Chain-join,
  Chain-relink_next, Chain-relink_prev, first-append, last-append, last-ne_null, has-last,
  Distinct-front, Distinct-back, Distinct-apart, Distinct-apart_back, Distinct-drop, Chain-frame,
  has-append, has-apart,
}
use device_samsung_msm8660_c.LinkedList.Returns.{Returns, Spares}

abbrev state_of : Ptr → Ptr → Option ListState
state_of head tail = some (record { p_head = head; p_tail = tail })

module _ {W : Type 0} (h : Ptr) (c : Node) where
  -- One half of the unlinking: the states at `h` and the cells of `ns` are what may change.
  record Half (ns : List Node) (s s' : Store W) (r : Run W (Unit {0})) (head tail : Ptr)
      : Type 0 where
    runs : r ≡ ok tt s'
    state : s'.states h ≡ state_of head tail
    spares : Spares h ns s s'
    world : s'.world ≡ s.world

  bypass_prev-Half :
      (s : Store W) (xs : List Node) (next tail : Ptr)
      → s.states h ≡ state_of (first xs c.addr) tail
      → Chain s.cells null xs c.addr
      → Distinct xs
      → (s' : Store W) × Half xs s s'
          (bypass_prev h (element c next (last xs null)) s)
          (first xs next)
          tail
        × Chain s'.cells null xs next
  unfolding bypass_prev load_state modify
  bypass_prev-Half s [] next tail st ch d = (
    record s { states = write s.states h (state_of next tail) },
    record {
      runs = ground arith;
      state = ground arith;
      spares = record { cells = λ a o. refl; states = λ g ne. ground arith };
      world = refl;
    },
    tt,
  )
  bypass_prev-Half s (x ∷ xs) next tail st ch d =
      let (e, at, relinked) = Chain-relink_next s.cells x xs null c.addr next d ch in
      let real = last-ne_null x xs d in
      (
        record s { cells = write s.cells (last xs x.addr) (some (set_next next e)) },
        record {
          runs = ground arith;
          state = st;
          spares = record {
            cells = λ a o. rw (has-apart (last xs x.addr) a (x ∷ xs) (has-last x xs) o);
            states = λ g ne. refl;
          };
          world = refl;
        },
        relinked,
      )

  bypass_next-Half :
      (s : Store W) (ys : List Node) (head prev : Ptr)
      → s.states h ≡ state_of head (last ys c.addr)
      → Chain s.cells c.addr ys null
      → Distinct ys
      → (s' : Store W) × Half ys s s'
          (bypass_next h (element c (first ys null) prev) s)
          head
          (last ys prev)
        × Chain s'.cells prev ys null
  unfolding bypass_next load_state modify
  bypass_next-Half s [] head prev st ch d = (
    record s { states = write s.states h (state_of head prev) },
    record {
      runs = ground arith;
      state = ground arith;
      spares = record { cells = λ a o. refl; states = λ g ne. ground arith };
      world = refl;
    },
    tt,
  )
  bypass_next-Half s (y ∷ ys) head prev st ch d =
      let relinked = Chain-relink_prev s.cells y ys c.addr prev null d ch in
      let real = d.0 in
      let at = ch.0 in
      (
        record s { cells = write s.cells y.addr (some (element y (first ys null) prev)) },
        record {
          runs = ground arith;
          state = st;
          spares = record { cells = λ a o. ground arith; states = λ g ne. refl };
          world = refl;
        },
        relinked,
      )

module _ {W : Type 0} (call : Ptr → Ptr → W → W) (copy_out : Bool) (h : Ptr) (c : Node) where
  -- What the world is after the element's `dealloc_func`, which runs if the datum is not handed out.
  abbrev pub world_after : W → W
  world_after w =
      if copy_out then w else if c.dealloc_func == null then w else call c.dealloc_func c.data_ptr w

  abbrev store_after : Element → Store W → Store W
  store_after e s = record s {
    cells = write (write s.cells c.addr (some (record e { next = null; prev = null }))) c.addr none;
    world = world_after s.world;
  }

  run_take_out :
      (s s1 s2 : Store W) (e : Element)
      → bypass_prev h e s ≡ ok tt s1
      → bypass_next h e s1 ≡ ok tt s2
      → e.data_ptr ≡ c.data_ptr
      → e.dealloc_func ≡ c.dealloc_func
      → s2.cells c.addr ≡ some e
      → take_out call copy_out h c.addr e s ≡ ok tt (store_after e s2)
  unfolding take_out modify free
  run_take_out s s1 s2 e one two datum func at = ground arith

  abbrev pub TakenOut : Store W → List Node → List Node → Unit {0} → Store W → Type 0
  TakenOut s xs ys _ s' =
      IsList s' h (xs ++ ys)
      × Spares h (xs ++ c ∷ ys) s s'
      × (s'.cells c.addr ≡ none)
      × (s'.world ≡ world_after s.world)

  -- The facts that the two halves of the unlinking give, put together.
  module _ (s s1 s2 : Store W) (xs ys : List Node) (is : IsList s h (xs ++ c ∷ ys)) where
    away : (a : Ptr) → has a (c ∷ ys) ≡ true → has a xs ≡ false
    away a inside = Distinct-apart a xs (c ∷ ys) is.distinct inside

    behind : Distinct (c ∷ ys)
    behind = Distinct-back xs (c ∷ ys) is.distinct

    rest : Distinct (xs ++ ys)
    rest = Distinct-drop c xs ys is.distinct

    back : Chain s.cells (last xs null) (c ∷ ys) null
    back = (Chain-split s.cells xs (c ∷ ys) null null is.chain).1

    back1 : Spares h xs s s1 → Chain s1.cells c.addr ys null
    back1 sp =
        Chain-frame s.cells s1.cells ys c.addr null (λ a i. sp.cells a (away a (ground arith)))
          back.1

    front2 :
        Spares h ys s1 s2
        → Chain s1.cells null xs (first ys null)
        → Chain s2.cells null xs (first ys null)
    front2 sp =
        Chain-frame s1.cells s2.cells xs null (first ys null)
          (λ a i. sp.cells a (Distinct-apart_back a xs ys rest i))

    outside : has c.addr xs ≡ false
    outside = away c.addr (ground arith)

    at2 :
        Spares h xs s s1
        → Spares h ys s1 s2
        → s2.cells c.addr ≡ some (element c (first ys null) (last xs null))
    at2 sp1 sp2 = sp2.cells c.addr behind.1 ∙ sp1.cells c.addr outside ∙ back.0

    spared :
        (e : Element)
        → Spares h xs s s1
        → Spares h ys s1 s2
        → Spares h (xs ++ c ∷ ys) s (store_after e s2)
    spared e sp1 sp2 = record {
      cells = λ a o.
          let split = has-append a xs (c ∷ ys) in
          let in_xs : has a xs ≡ false = ground (arith, split) in
          let in_ys : has a (c ∷ ys) ≡ false = ground (arith, split) in
          ground (arith, sp1.cells a in_xs, sp2.cells a);
      states = λ g ne. sp2.states g ne ∙ sp1.states g ne;
    }

    joined :
        (e : Element)
        → s2.states h ≡ state_of (first xs (first ys null)) (last ys (last xs null))
        → Chain s2.cells null xs (first ys null)
        → Chain s2.cells (last xs null) ys null
        → IsList (store_after e s2) h (xs ++ ys)
    joined e st front chain2 =
        let gone : has c.addr (xs ++ ys) ≡ false =
          ground (arith, has-append c.addr xs ys, outside, behind.1) in
        let all = Chain-join s2.cells xs ys null null front chain2 in
        record {
          handle = is.handle;
          state = rw (first-append xs ys null, last-append xs ys null) st;
          chain =
              Chain-write _ c.addr none (xs ++ ys) null null gone
                (Chain-write s2.cells c.addr _ (xs ++ ys) null null gone all);
          distinct = rest;
        }

  state-split :
      (s : Store W) (xs ys : List Node)
      → IsList s h (xs ++ c ∷ ys)
      → s.states h ≡ state_of (first xs c.addr) (last ys c.addr)
  state-split s xs ys is =
      rw (first-append xs (c ∷ ys) null, last-append xs (c ∷ ys) null) at is.state

  pub take_out_lem :
      (s : Store W) (xs ys : List Node)
      → IsList s h (xs ++ c ∷ ys)
      → Returns
          (TakenOut s xs ys)
          (take_out call copy_out h c.addr (element c (first ys null) (last xs null)) s)
  take_out_lem s xs ys is =
      let e = element c (first ys null) (last xs null) in
      let dx = Distinct-front xs (c ∷ ys) is.distinct in
      let front = (Chain-split s.cells xs (c ∷ ys) null null is.chain).0 in
      let (s1, half1, chain1) =
        bypass_prev-Half h c s xs (first ys null) (last ys c.addr) (state-split s xs ys is) front
          dx in
      let b1 = back1 s s1 s1 xs ys is half1.spares in
      let (s2, half2, chain2) =
        bypass_next-Half h c s1 ys (first xs (first ys null)) (last xs null) half1.state b1
          (behind s s1 s1 xs ys is).2 in
      let f2 = front2 s s1 s2 xs ys is half2.spares chain1 in
      rw
        (run_take_out s s1 s2 e half1.runs half2.runs refl refl
          (at2 s s1 s2 xs ys is half1.spares half2.spares))
        (
          joined s s1 s2 xs ys is e half2.state f2 chain2,
          spared s s1 s2 xs ys is e half1.spares half2.spares,
          ground arith,
          ap world_after (half2.world ∙ half1.world),
        )
