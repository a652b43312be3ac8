-- ===== src/MsgQ.antt =====
-- The blocking message queue of gps/utils/msg_q.{h,c}, over the sequence of objects of its list.
-- Each function holds the mutex from its check of `unblocked` to its return, but for the wait of
-- `msg_q_rcv`. What `pthread_cond_signal` and `pthread_cond_broadcast` do is part of the result.
pub mod Threads
pub mod Fifo
pub mod Wakeups
mod Tests
use device_samsung_msm8660_c.Common.{
  ℕ, Bool, true, false, ◌&&◌, not, Option, none, some, List, [], ◌∷◌, ◌==◌, if◌then◌else◌, is_nil,
}
use device_samsung_msm8660_c.LinkedList.Store.{
  ListErr, success, failure_general, unavailable_resource,
}
use device_samsung_msm8660_c.LinkedList.Store
use device_samsung_msm8660_c.LinkedList.Search.{Object}
use device_samsung_msm8660_c.LinkedList.Abstract

-- `msq_q_err_type`
pub data MsgQErr : Type 0 where
  q_success q_failure_general q_invalid_parameter q_invalid_handle q_unavailable_resource : MsgQErr
  q_insufficient_buffer : MsgQErr

unfoldable pub convert_linked_list_err_type : ListErr → MsgQErr
convert_linked_list_err_type ListErr.success = q_success
convert_linked_list_err_type ListErr.invalid_parameter = q_invalid_parameter
convert_linked_list_err_type ListErr.invalid_handle = q_invalid_handle
convert_linked_list_err_type ListErr.unavailable_resource = q_unavailable_resource
convert_linked_list_err_type ListErr.insufficient_buffer = q_insufficient_buffer
convert_linked_list_err_type ListErr.failure_general = q_failure_general

-- `msg_q`: the objects of `msg_list`, head first, and `unblocked`.
pub record MsgQ : Type 0 where
  pub msg_list : List Object
  pub unblocked : Bool

-- What `msg_q_init` undoes when a later part of it fails.
pub data Undo : Type 0 where
  destroy_list destroy_mutex free_queue : Undo

abbrev pub Init : Type 0
Init = MsgQErr × Option MsgQ × List Undo

-- `msg_q_init`, by whether its output pointer is null and whether each of its four parts succeeds.
unfoldable pub msg_q_init : (out_null calloc_ok list_ok mutex_ok cond_ok : Bool) → Init
msg_q_init true calloc_ok list_ok mutex_ok cond_ok = (q_invalid_parameter, none, [])
msg_q_init false calloc_ok list_ok mutex_ok cond_ok =
    if not calloc_ok
    then (q_failure_general, none, [])
    else if not list_ok
    then (q_failure_general, none, free_queue ∷ [])
    else if not mutex_ok
    then (q_failure_general, none, destroy_list ∷ free_queue ∷ [])
    else if not cond_ok
    then (q_failure_general, none, destroy_list ∷ destroy_mutex ∷ free_queue ∷ [])
    else (q_success, some (record { msg_list = []; unblocked = false }), [])

-- `linked_list_add` on the sequence, by whether its `malloc` succeeds.
abbrev list_add : Bool → Object → List Object → ListErr × List Object
list_add malloc_ok o os =
    if malloc_ok then (ListErr.success, o ∷ os) else (ListErr.failure_general, os)

-- Whom the queue wakes.
pub data Wake : Type 0 where
  wake_none wake_one wake_all : Wake

-- `msg_q_snd` for a queue and a message that are not null.
unfoldable pub msg_q_snd : (malloc_ok : Bool) → Object → MsgQ → MsgQErr × MsgQ × Wake
msg_q_snd malloc_ok o q =
    let (err, os) = list_add malloc_ok o q.msg_list in
    if q.unblocked
    then (q_unavailable_resource, q, wake_none)
    else (convert_linked_list_err_type err, record q { msg_list = os }, wake_one)

-- `msg_q_snd` with its checks of null pointers.
unfoldable pub msg_q_snd_checked :
    (malloc_ok : Bool) → Object → Option MsgQ → MsgQErr × Option MsgQ × Wake
msg_q_snd_checked malloc_ok o none = (q_invalid_handle, none, wake_none)
msg_q_snd_checked malloc_ok o (some q) =
    let (err, q', w) = msg_q_snd malloc_ok o q in
    if o.data_ptr == Store.null then (q_invalid_parameter, some q, wake_none) else (err, some q', w)

-- How a receiver's turn under the mutex ends: it goes to sleep, or it returns.
pub data Turn : Type 0 where
  sleeps : Turn
  returns : MsgQErr → Option Object → MsgQ → Turn

-- `linked_list_remove` at the end of `msg_q_rcv`.
unfoldable pub take_message : Option (Object × List Object) → MsgQ → Turn
take_message none q = returns (convert_linked_list_err_type ListErr.unavailable_resource) none q
take_message (some (o, os)) q =
    returns (convert_linked_list_err_type ListErr.success) (some o) (record q { msg_list = os })

-- The test of the `while` loop of `msg_q_rcv`, and what follows when it fails.
unfoldable pub rcv_turn : MsgQ → Turn
rcv_turn q =
    if is_nil q.msg_list && not q.unblocked
    then sleeps
    else take_message (Abstract.remove q.msg_list) q

-- The first turn of `msg_q_rcv`.
unfoldable pub msg_q_rcv : MsgQ → Turn
msg_q_rcv q = if q.unblocked then returns q_unavailable_resource none q else rcv_turn q

-- `msg_q_flush`; the objects go to their `dealloc` as `linked_list_flush` says.
unfoldable pub msg_q_flush : MsgQ → MsgQErr × MsgQ
msg_q_flush q = (convert_linked_list_err_type ListErr.success, record q { msg_list = [] })

unfoldable pub msg_q_unblock : MsgQ → MsgQErr × MsgQ × Wake
msg_q_unblock q =
    if q.unblocked
    then (q_unavailable_resource, q, wake_none)
    else (q_success, record q { unblocked = true }, wake_all)
