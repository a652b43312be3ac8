-- ===== src/LinkedList/Flush.antt =====
-- `linked_list_flush`, `linked_list_destroy` and `linked_list_init`.
use device_samsung_msm8660_c.Common.{
  ℕ, zero, suc, ◌<◌, ◌≡◌, ◌≢◌, refl, ◌∙◌, false, Option, none, some, List, [], ◌∷◌, arith, ◌==◌,
  if◌then◌else◌, length,
}
use mathlib.Core.List.{map}
use device_samsung_msm8660_c.LinkedList.Abstract
use device_samsung_msm8660_c.LinkedList.Store.{
  Ptr, null, ListState, ListErr, success, Store, load, load_state, free, write, ok, and_then,
}
use device_samsung_msm8660_c.LinkedList.Code.{
  flush_loop, clear_tail, linked_list_flush, linked_list_destroy, linked_list_init,
}
use device_samsung_msm8660_c.LinkedList.Chain.{
  Node, element, first, last, has, Chain, Distinct, IsList, Chain-write,
}
use device_samsung_msm8660_c.LinkedList.Returns.{Returns, Spares, Returns-bind, Returns-mono}
use device_samsung_msm8660_c.LinkedList.Search.{Object, object}

abbrev state_of : Ptr → Ptr → Option ListState
state_of head tail = some (record { p_head = head; p_tail = tail })

module _ {W : Type 0} (call : Ptr → Ptr → W → W) (h : Ptr) where
  abbrev pub free_object : Object → W → W
  free_object o w = if o.dealloc_func == null then w else call o.dealloc_func o.data_ptr w

  -- The list is empty, its elements are freed, nothing else changed, and the objects went to their
  -- `dealloc_func`, head first.
  pub record Flushed (s : Store W) (ns : List Node) (tail : Ptr) (s' : Store W) : Type 0 where
    pub state : s'.states h ≡ state_of null tail
    pub freed : (a : Ptr) → s'.cells a ≡ (if has a ns then none else s.cells a)
    pub states : (g : Ptr) → g ≢ h → s'.states g ≡ s.states g
    pub world : s'.world ≡ Abstract.flush free_object (map object ns) s.world

  abbrev next_store : Store W → Node → List Node → Ptr → Store W
  next_store s n ns tail = record s {
    cells = write s.cells n.addr none;
    states = write s.states h (state_of (first ns null) tail);
    world = free_object (object n) s.world;
  }

  flush_step :
      (k : ℕ) (s : Store W) (n : Node) (ns : List Node) (prev tail : Ptr)
      → n.addr ≢ null
      → s.states h ≡ state_of n.addr tail
      → s.cells n.addr ≡ some (element n (first ns null) prev)
      → flush_loop call (suc k) h s ≡ flush_loop call k h (next_store s n ns tail)
  unfolding flush_loop load_state load free
  flush_step k s n ns prev tail real st at = ground arith

  flush_end :
      (k : ℕ) (s : Store W) (tail : Ptr)
      → s.states h ≡ state_of null tail
      → flush_loop call (suc k) h s ≡ ok tt s
  unfolding flush_loop load_state
  flush_end k s tail st = ground arith

  flush_loop-Flushed :
      (k : ℕ) (s : Store W) (ns : List Node) (prev tail : Ptr)
      → s.states h ≡ state_of (first ns null) tail
      → Chain s.cells prev ns null
      → Distinct ns
      → length ns < k
      → Returns (λ _ s'. Flushed s ns tail s') (flush_loop call k h s)
  flush_loop-Flushed zero s ns prev tail st ch d fuel = absurd (omega arith)
  flush_loop-Flushed (suc k) s [] prev tail st ch d fuel = rw (flush_end k s tail st) (record {
    state = st;
    freed = λ a. refl;
    states = λ g ne. refl;
    world = unfold Abstract.flush in refl;
  })
  flush_loop-Flushed (suc k) s (n ∷ ns) prev tail st ch d fuel =
      let s1 = next_store s n ns tail in
      rw (flush_step k s n ns prev tail d.0 st ch.0) (
        Returns-mono (flush_loop call k h s1) (λ _ s'. Flushed s1 ns tail s') _
          (flush_loop-Flushed k s1 ns n.addr tail (ground arith)
            (Chain-write s.cells n.addr none ns n.addr null d.1 ch.1) d.2 (omega arith))
          λ _ s' f. record {
            state = f.state;
            freed = λ a. ground (arith, f.freed a);
            states = λ g ne. f.states g ne ∙ ground arith;
            world = unfold Abstract.flush in f.world;
          })

  clear_tail_run :
      (s : Store W) (tail : Ptr)
      → s.states h ≡ state_of null tail
      → clear_tail h s ≡ ok success (record s { states = write s.states h (state_of null null) })
  unfolding clear_tail load_state
  clear_tail_run s tail st = ground arith

  flush_run :
      (fuel : ℕ) (s : Store W)
      → h ≢ null
      → linked_list_flush call fuel h s ≡ and_then (flush_loop call fuel h s) (λ _. clear_tail h)
  unfolding linked_list_flush
  flush_run fuel s handle = ground arith

  abbrev pub Emptied : Store W → List Node → ListErr → Store W → Type 0
  Emptied s ns r s' = (r ≡ success) × IsList s' h [] × Flushed s ns null s'

  finish :
      (s s' : Store W) (ns : List Node) (tail : Ptr)
      → h ≢ null
      → Flushed s ns tail s'
      → Returns (Emptied s ns) (clear_tail h s')
  finish s s' ns tail handle f = rw (clear_tail_run s' tail f.state) (
    refl,
    record { handle = handle; state = ground arith; chain = tt; distinct = tt },
    record {
      state = ground arith;
      freed = f.freed;
      states = λ g ne. ground (arith, f.states g ne);
      world = f.world;
    },
  )

  -- With fuel for the list, flushing ends without a fault in an empty list. Every element is freed and
  -- every object handed to its `dealloc_func` once, head first, and nothing else changes.
  pub linked_list_flush-Emptied :
      (fuel : ℕ) (s : Store W) (ns : List Node)
      → IsList s h ns
      → length ns < fuel
      → Returns (Emptied s ns) (linked_list_flush call fuel h s)
  linked_list_flush-Emptied fuel s ns is enough =
      let tail = last ns null in
      rw (flush_run fuel s is.handle) (
        Returns-bind (flush_loop call fuel h s) _ (λ _ s'. Flushed s ns tail s') (Emptied s ns)
          (flush_loop-Flushed fuel s ns null tail is.state is.chain is.distinct enough)
          λ _ s' f. finish s s' ns tail is.handle f)

  -- After destruction the handle's state and the list's elements are freed, nothing else changed, and
  -- every object went to its `dealloc_func` once, head first.
  pub record Destroyed (s : Store W) (ns : List Node) (r : ListErr) (s' : Store W) : Type 0 where
    pub result : r ≡ success
    pub state : s'.states h ≡ none
    pub freed : (a : Ptr) → s'.cells a ≡ (if has a ns then none else s.cells a)
    pub states : (g : Ptr) → g ≢ h → s'.states g ≡ s.states g
    pub world : s'.world ≡ Abstract.flush free_object (map object ns) s.world

  destroy_run :
      (fuel : ℕ) (s : Store W)
      → linked_list_destroy call fuel (some h) s
        ≡ and_then
            (linked_list_flush call fuel h s)
            (λ _ t. ok success (record t { states = write t.states h none }))
  unfolding linked_list_destroy
  destroy_run fuel s = ground arith

  -- With fuel for the list, destruction ends without a fault, with all of the list given back.
  pub linked_list_destroy-Destroyed :
      (fuel : ℕ) (s : Store W) (ns : List Node)
      → IsList s h ns
      → length ns < fuel
      → Returns (Destroyed s ns) (linked_list_destroy call fuel (some h) s)
  linked_list_destroy-Destroyed fuel s ns is enough = rw (destroy_run fuel s) (
      Returns-bind (linked_list_flush call fuel h s) _ (Emptied s ns) (Destroyed s ns)
        (linked_list_flush-Emptied fuel s ns is enough)
        λ _ t (_, _, f). record {
          result = refl;
          state = ground arith;
          freed = f.freed;
          states = λ g ne. ground (arith, f.states g ne);
          world = f.world;
        })

  init_run :
      (s : Store W)
      → h ≢ null
      → linked_list_init false h s
        ≡ ok (success, some h) (record s { states = write s.states h (state_of null null) })
  unfolding linked_list_init
  init_run s handle = ground arith

  -- A list that was initialised is empty, and nothing else has changed.
  pub linked_list_init-IsList :
      (s : Store W)
      → h ≢ null
      → s.states h ≡ none
      → Returns
          (λ r s'.
            (r ≡ (success, some h)) × IsList s' h [] × Spares h [] s s' × (s'.world ≡ s.world))
          (linked_list_init false h s)
  linked_list_init-IsList s handle free = rw (init_run s handle) (
    refl,
    record { handle = handle; state = ground arith; chain = tt; distinct = tt },
    record { cells = λ a o. refl; states = λ g ne. ground arith },
    refl,
  )
