-- ===== src/LinkedList/Search.antt =====
-- `linked_list_search` refines the search of a sequence of objects.
use device_samsung_msm8660_c.Common.{
  ℕ, zero, suc, ◌<◌, ◌≡◌, ◌≢◌, refl, ap, ◌∙◌, Bool, true, false, ◌&&◌, not, Option, none, some,
  List, [], ◌∷◌, ◌++◌, arith, ◌==◌, if◌then◌else◌, length, Bool-cases, inl, inr,
}
use mathlib.Core.List.{map, map-append, append_assoc}
use mathlib.Core.Option
use device_samsung_msm8660_c.LinkedList.Abstract
use device_samsung_msm8660_c.LinkedList.Store.{
  Ptr, null, Element, ListErr, success, unavailable_resource, Store, load, load_state, ok, and_then,
  ◌>>◌,
}
use device_samsung_msm8660_c.LinkedList.Code.{take_out, report, search_loop, linked_list_search}
use device_samsung_msm8660_c.LinkedList.Chain.{
  Node, element, first, last, IsList, Chain-split, Distinct-back, last-ne_null,
}
use device_samsung_msm8660_c.LinkedList.Returns.{Returns, Returns-bind, Returns-mono}
use device_samsung_msm8660_c.LinkedList.TakeOut.{TakenOut, take_out_lem, world_after}

-- What a client put into the list: the datum and the function that frees it.
pub record Object : Type 0 where
  pub data_ptr : Ptr
  pub dealloc_func : Ptr

abbrev pub object : Node → Object
object n = record { data_ptr = n.data_ptr; dealloc_func = n.dealloc_func }

module _ {W : Type 0} (call : Ptr → Ptr → W → W) (equal : Ptr → W → Bool × W)
    (copy_out rm_if_found : Bool) (h : Ptr) where
  abbrev pub equal_object : Object → W → Bool × W
  equal_object o w = equal o.data_ptr w

  abbrev pub free_object : Object → W → W
  free_object o w = if o.dealloc_func == null then w else call o.dealloc_func o.data_ptr w

  abbrev pub spec : List Object → W → Abstract.Search Object W
  spec os w = Abstract.search copy_out equal_object rm_if_found free_object os w

  -- The search of a sequence gave `r`, and the nodes `xs` stand in front of what it searched.
  pub record Found (xs : List Node) (r : Abstract.Search Object W) (found : Option Ptr)
      (s' : Store W) : Type 0 where
    pub nodes : List Node
    pub list : IsList s' h nodes
    pub objects : map object nodes ≡ map object xs ++ r.objects
    pub datum : found ≡ Option.map (λ (o : Object). o.data_ptr) r.found
    pub world : s'.world ≡ r.world

  IsList-world :
      (s : Store W) (w : W) (ns : List Node) → IsList s h ns → IsList (record s { world = w }) h ns
  IsList-world s w ns is = record {
    handle = is.handle;
    state = is.state;
    chain = is.chain;
    distinct = is.distinct;
  }

  abbrev hit_result : Node → List Object → W → Abstract.Search Object W
  hit_result y os w = record {
    found = some (object y);
    objects = if rm_if_found then os else object y ∷ os;
    world = if rm_if_found && not copy_out then free_object (object y) w else w;
  }

  spec-hit :
      (y : Node) (os : List Object) (w : W)
      → (equal y.data_ptr w).0 ≡ true
      → spec (object y ∷ os) w ≡ hit_result y os (equal y.data_ptr w).1
  unfolding Abstract.search
  spec-hit y os w hit = rw hit

  spec-miss :
      (y : Node) (os : List Object) (w : W)
      → (equal y.data_ptr w).0 ≡ false
      → let rest = spec os (equal y.data_ptr w).1 in
        spec (object y ∷ os) w
        ≡ record { found = rest.found; objects = object y ∷ rest.objects; world = rest.world }
  unfolding Abstract.search
  spec-miss y os w miss = rw miss

  removed-world :
      (y : Node) (w w' : W)
      → w' ≡ w
      → world_after call copy_out h y w'
        ≡ (if true && not copy_out then free_object (object y) w else w)
  removed-world y w w' e = ground arith

  report-Found :
      (s : Store W) (xs ys : List Node) (y : Node) (w : W)
      → IsList s h (xs ++ y ∷ ys)
      → s.world ≡ w
      → Returns
          (Found xs (hit_result y (map object ys) w))
          (report call copy_out rm_if_found h y.addr (element y (first ys null) (last xs null)) s)
  unfolding report
  report-Found s xs ys y w is there = elim (Bool-cases rm_if_found) [
    | inl removing ↦
        rw (removing, ◌>>◌)
          (Returns-bind
            (take_out call copy_out h y.addr (element y (first ys null) (last xs null)) s) _
            (TakenOut call copy_out h y s xs ys) _ (take_out_lem call copy_out h y s xs ys is)
            λ _ s' (is', _, _, after). record {
              nodes = xs ++ ys;
              list = is';
              objects = map-append object xs ys;
              datum = refl;
              world = after ∙ removed-world y w s.world there;
            })
    | inr keeping ↦
        rw (keeping, ◌>>◌)
          (record {
            nodes = xs ++ y ∷ ys;
            list = is;
            objects = map-append object xs (y ∷ ys);
            datum = refl;
            world = there;
          })
  ]

  -- An object that `equal` passes over joins those in front.
  Found-pass :
      (xs : List Node) (y : Node) (r : Abstract.Search Object W) (found : Option Ptr) (s' : Store W)
      → Found (xs ++ y ∷ []) r found s'
      → Found xs
          (record { found = r.found; objects = object y ∷ r.objects; world = r.world })
          found
          s'
  Found-pass xs y r found s' f = record {
    nodes = f.nodes;
    list = f.list;
    objects =
        f.objects
        ∙ ap (λ os. os ++ r.objects) (map-append object xs (y ∷ []))
        ∙ append_assoc (map object xs) (object y ∷ []) r.objects;
    datum = f.datum;
    world = f.world;
  }

  loop_hit :
      (k : ℕ) (s : Store W) (p : Ptr) (e : Element)
      → p ≢ null
      → s.cells p ≡ some e
      → (equal e.data_ptr s.world).0 ≡ true
      → search_loop call equal (suc k) copy_out rm_if_found h p s
        ≡ report call copy_out rm_if_found h p e (record s { world = (equal e.data_ptr s.world).1 })
  unfolding search_loop load
  loop_hit k s p e real at hit = ground arith

  loop_miss :
      (k : ℕ) (s : Store W) (p : Ptr) (e : Element)
      → p ≢ null
      → s.cells p ≡ some e
      → (equal e.data_ptr s.world).0 ≡ false
      → search_loop call equal (suc k) copy_out rm_if_found h p s
        ≡ search_loop call equal k copy_out rm_if_found h e.next
            (record s { world = (equal e.data_ptr s.world).1 })
  unfolding search_loop load
  loop_miss k s p e real at miss = ground arith

  search_loop-Found :
      (k : ℕ) (s : Store W) (xs ys : List Node)
      → IsList s h (xs ++ ys)
      → length ys < k
      → Returns
          (Found xs (spec (map object ys) s.world))
          (search_loop call equal k copy_out rm_if_found h (first ys null) s)
  search_loop-Found zero s xs ys is fuel = absurd (omega arith)
  search_loop-Found (suc k) s xs [] is fuel =
      unfold search_loop Abstract.search in
      record {
        nodes = xs ++ [];
        list = is;
        objects = map-append object xs [];
        datum = refl;
        world = refl;
      }
  search_loop-Found (suc k) s xs (y ∷ ys) is fuel =
      let e = element y (first ys null) (last xs null) in
      let back = (Chain-split s.cells xs (y ∷ ys) null null is.chain).1 in
      let real = (Distinct-back xs (y ∷ ys) is.distinct).0 in
      let step = equal y.data_ptr s.world in
      let s1 = record s { world = step.1 } in
      let is1 = IsList-world s step.1 (xs ++ y ∷ ys) is in
      elim (Bool-cases step.0) [
        | inl hit ↦
            rw (spec-hit y (map object ys) s.world hit)
              (rw (loop_hit k s y.addr e real back.0 hit) (report-Found s1 xs ys y step.1 is1 refl))
        | inr miss ↦ rw (spec-miss y (map object ys) s.world miss) (
            rw (loop_miss k s y.addr e real back.0 miss) (
              Returns-mono (search_loop call equal k copy_out rm_if_found h (first ys null) s1)
                (Found (xs ++ y ∷ []) (spec (map object ys) step.1)) _
                (search_loop-Found k s1 (xs ++ y ∷ []) ys (rw (append_assoc xs (y ∷ []) ys) is1)
                  (omega arith))
                (Found-pass xs y (spec (map object ys) step.1))))
      ]

  abbrev pub search_err : List Node → ListErr
  search_err [] = unavailable_resource
  search_err (n ∷ ns) = success

  -- What the function returns and does, told by the search of the sequence of objects.
  abbrev pub Searched : List Node → W → ListErr × Option Ptr → Store W → Type 0
  Searched ns w (err, found) s' = (err ≡ search_err ns) × Found [] (spec (map object ns) w) found s'

  search_none :
      (fuel : ℕ) (s : Store W)
      → IsList s h []
      → linked_list_search call equal fuel h copy_out rm_if_found s
        ≡ ok (unavailable_resource, none) s
  unfolding linked_list_search load_state
  search_none fuel s is = ground (arith, is.handle, is.state)

  search_more :
      (fuel : ℕ) (s : Store W) (n : Node) (ns : List Node)
      → IsList s h (n ∷ ns)
      → linked_list_search call equal fuel h copy_out rm_if_found s
        ≡ and_then
            (search_loop call equal fuel copy_out rm_if_found h n.addr s)
            (λ found s'. ok (success, found) s')
  unfolding linked_list_search load_state
  search_more fuel s n ns is = ground (arith, is.handle, is.state, last-ne_null n ns is.distinct)

  -- With fuel for the list, `linked_list_search` ends without a fault, and does to the sequence of
  -- objects and to the world what the search of the sequence does; an empty list is reported as such.
  pub linked_list_search-Searched :
      (fuel : ℕ) (s : Store W) (ns : List Node)
      → IsList s h ns
      → length ns < fuel
      → Returns (Searched ns s.world) (linked_list_search call equal fuel h copy_out rm_if_found s)
  linked_list_search-Searched fuel s [] is enough = rw (search_none fuel s is) (
    refl,
    unfold Abstract.search in
        record { nodes = []; list = is; objects = refl; datum = refl; world = refl },
  )
  linked_list_search-Searched fuel s (n ∷ ns) is enough = rw (search_more fuel s n ns is) (
      Returns-bind (search_loop call equal fuel copy_out rm_if_found h n.addr s) _
        (Found [] (spec (map object (n ∷ ns)) s.world)) (Searched (n ∷ ns) s.world)
        (search_loop-Found fuel s [] (n ∷ ns) is enough) λ found s' f. (refl, f))
