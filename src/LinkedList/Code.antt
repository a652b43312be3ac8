-- ===== src/LinkedList/Code.antt =====
-- The functions of gps/utils/linked_list.c. What `malloc` and `calloc` return is an argument, null
-- where they fail; an argument `Bool` says whether an output pointer is null.
use device_samsung_msm8660_c.Common.{ℕ, zero, suc, Bool, Option, none, some, ◌==◌, if◌then◌else◌}
use device_samsung_msm8660_c.LinkedList.Store.{
  Ptr, null, Element, ListState, ListErr, success, failure_general, invalid_parameter,
  invalid_handle, unavailable_resource, Cmd, out_of_fuel, ◌>>=◌, ◌>>◌, pure, load, modify, free,
  load_state, store_state, store_cell, act,
}

abbrev pub set_next : Ptr → Element → Element
set_next q e = record e { next = q }

abbrev pub set_prev : Ptr → Element → Element
set_prev q e = record e { prev = q }

module _ {W : Type 0} where
  -- `linked_list_init`: the error and the handle stored through `list_data`, if any.
  unfoldable pub linked_list_init : (out_null : Bool) (fresh : Ptr) → Cmd W (ListErr × Option Ptr)
  linked_list_init out_null fresh =
      if out_null
      then pure (invalid_parameter, none)
      else if fresh == null
      then pure (failure_general, none)
      else (store_state fresh (some (record { p_head = null; p_tail = null }))
          >> pure (success, some fresh))

  -- What follows the new element's initialisation in `linked_list_add`.
  unfoldable pub link_head : Ptr → Ptr → Cmd W ListErr
  link_head h fresh = do
    l ← load_state h
    store_state h (some (record l { p_head = fresh }))
    modify fresh (set_next l.p_head)
    (if l.p_head == null
        then store_state h (some (record { p_head = fresh; p_tail = fresh }))
        else modify l.p_head (set_prev fresh))
    pure success

  unfoldable pub linked_list_add : (list_data data_obj dealloc : Ptr) (fresh : Ptr) → Cmd W ListErr
  linked_list_add list_data data_obj dealloc fresh =
      if list_data == null
      then pure invalid_handle
      else if data_obj == null
      then pure invalid_parameter
      else if fresh == null
      then pure failure_general
      else (store_cell fresh
            (record { next = null; prev = null; data_ptr = data_obj; dealloc_func = dealloc })
          >> link_head list_data fresh)

  unfoldable pub unlink_tail : Ptr → ListState → Cmd W (ListErr × Option Ptr)
  unlink_tail h l = do
    e ← load l.p_tail
    (if e.prev == null
        then store_state h (some (record { p_head = null; p_tail = null }))
        else (store_state h (some (record l { p_tail = e.prev })) >> modify e.prev (set_next null)))
    free l.p_tail
    pure (success, some e.data_ptr)

  -- `linked_list_remove`: the error and what is stored through `data_obj`, if anything.
  unfoldable pub linked_list_remove :
      (list_data : Ptr) (out_null : Bool) → Cmd W (ListErr × Option Ptr)
  linked_list_remove list_data out_null =
      if list_data == null
      then pure (invalid_handle, none)
      else if out_null
      then pure (invalid_parameter, none)
      else do
        l ← load_state list_data
        if l.p_tail == null then pure (unavailable_resource, none) else unlink_tail list_data l

  -- `linked_list_empty`, with the value of `eLINKED_LIST_INVALID_HANDLE` as none.
  unfoldable pub linked_list_empty : Ptr → Cmd W (Option Bool)
  linked_list_empty list_data =
      if list_data == null
      then pure none
      else do l ← load_state list_data; pure (some (l.p_head == null))

  -- What stood before an element is linked to what stands behind it, and the other way round.
  unfoldable pub bypass_prev : Ptr → Element → Cmd W (Unit {0})
  bypass_prev h e = do
    l ← load_state h
    if e.prev == null
        then store_state h (some (record l { p_head = e.next }))
        else modify e.prev (set_next e.next)

  unfoldable pub bypass_next : Ptr → Element → Cmd W (Unit {0})
  bypass_next h e = do
    l ← load_state h
    if e.next == null
        then store_state h (some (record l { p_tail = e.prev }))
        else modify e.next (set_prev e.prev)

  -- What follows the loop of `linked_list_flush`.
  unfoldable pub clear_tail : Ptr → Cmd W ListErr
  clear_tail h = do
    l ← load_state h
    store_state h (some (record l { p_tail = null }))
    pure success

  -- The callbacks: `dealloc_func` called on a data pointer, and `equal` with `data_0` given.
  module _ (call_dealloc : Ptr → Ptr → W → W) where
    abbrev pub run_dealloc : Element → Cmd W (Unit {0})
    run_dealloc e =
        act (λ w.
          (tt, if e.dealloc_func == null then w else call_dealloc e.dealloc_func e.data_ptr w))

    unfoldable pub flush_loop : ℕ → Ptr → Cmd W (Unit {0})
    flush_loop zero h = λ _. out_of_fuel
    flush_loop (suc k) h = do
      l ← load_state h
      if l.p_head == null then pure tt else do
        e ← load l.p_head
        run_dealloc e
        free l.p_head
        store_state h (some (record l { p_head = e.next }))
        flush_loop k h

    unfoldable pub linked_list_flush : (fuel : ℕ) (list_data : Ptr) → Cmd W ListErr
    linked_list_flush fuel list_data =
        if list_data == null
        then pure invalid_handle
        else (flush_loop fuel list_data >> clear_tail list_data)

    -- `linked_list_destroy`: `list_data` is none where the pointer to the handle is null.
    unfoldable pub linked_list_destroy : (fuel : ℕ) (list_data : Option Ptr) → Cmd W ListErr
    linked_list_destroy fuel none = pure invalid_handle
    linked_list_destroy fuel (some h) = do
      linked_list_flush fuel h
      store_state h none
      pure success

    -- The found element leaves the list, in `linked_list_search`.
    unfoldable pub take_out : (copy_out : Bool) → Ptr → Ptr → Element → Cmd W (Unit {0})
    take_out copy_out h p e = do
      bypass_prev h e
      bypass_next h e
      modify p (λ f. record f { next = null; prev = null })
      (if copy_out then pure tt else run_dealloc e)
      free p

    -- What the loop of `linked_list_search` does at an element that `equal` accepts.
    unfoldable pub report : (copy_out rm_if_found : Bool) → Ptr → Ptr → Element → Cmd W (Option Ptr)
    report copy_out rm_if_found h p e =
        (if rm_if_found then take_out copy_out h p e else pure tt) >> pure (some e.data_ptr)

    module _ (equal : Ptr → W → Bool × W) where
      -- The `while` loop of `linked_list_search`, from `tmp`; the result is the data pointer found.
      unfoldable pub search_loop :
          ℕ → (copy_out rm_if_found : Bool) → (h tmp : Ptr) → Cmd W (Option Ptr)
      search_loop zero copy_out rm_if_found h tmp = λ _. out_of_fuel
      search_loop (suc k) copy_out rm_if_found h tmp = if tmp == null then pure none else do
        e ← load tmp
        hit ← act (equal e.data_ptr)
        let rest = search_loop k copy_out rm_if_found h e.next
        if hit then report copy_out rm_if_found h tmp e else rest

      -- The result pairs the error with what is stored through `data_p`, where it is not null.
      unfoldable pub linked_list_search :
          (fuel : ℕ) (list_data : Ptr) (copy_out rm_if_found : Bool) → Cmd W (ListErr × Option Ptr)
      linked_list_search fuel list_data copy_out rm_if_found =
          if list_data == null then pure (invalid_handle, none) else do
            l ← load_state list_data
            if l.p_tail == null then pure (unavailable_resource, none) else do
              found ← search_loop fuel copy_out rm_if_found list_data l.p_head
              pure (success, found)
