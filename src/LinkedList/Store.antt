-- ===== src/LinkedList/Store.antt =====
-- The memory that gps/utils/linked_list.c works on, and the accesses that it makes.
use device_samsung_msm8660_c.Common.{ℕ, Option, none, some, ◌==◌, if◌then◌else◌}

abbrev pub Ptr : Type 0
Ptr = ℕ

abbrev pub null : Ptr
null = 0

-- `list_element`; `dealloc_func` is the address of a function.
pub record Element : Type 0 where
  pub next : Ptr
  pub prev : Ptr
  pub data_ptr : Ptr
  pub dealloc_func : Ptr

-- `list_state`
pub record ListState : Type 0 where
  pub p_head : Ptr
  pub p_tail : Ptr

-- `linked_list_err_type`
pub data ListErr : Type 0 where
  success failure_general invalid_parameter invalid_handle unavailable_resource : ListErr
  insufficient_buffer : ListErr

-- The heap, by type of the object that lies at an address, and the world that callbacks act on.
pub record Store (W : Type 0) : Type 0 where
  pub cells : Ptr → Option Element
  pub states : Ptr → Option ListState
  pub world : W

abbrev pub write {ℓ} : {A : Type ℓ} → (Ptr → Option A) → Ptr → Option A → Ptr → Option A
write c p v a = if a == p then v else c a

-- A fault is an access through an address that holds no such object.
pub data Run (W A : Type 0) : Type 0 where
  ok : A → Store W → Run W A
  fault : Run W A
  out_of_fuel : Run W A

abbrev pub Cmd : Type 0 → Type 0 → Type 0
Cmd W A = Store W → Run W A

module _ {W A B : Type 0} where
  abbrev pub and_then : Run W A → (A → Cmd W B) → Run W B
  and_then (ok a s) k = k a s
  and_then fault k = fault
  and_then out_of_fuel k = out_of_fuel

  infixl 5 ◌>>=◌ ◌>>◌
  abbrev pub ◌>>=◌ : Cmd W A → (A → Cmd W B) → Cmd W B
  ◌>>=◌ m k s = and_then (m s) k

  abbrev pub ◌>>◌ : Cmd W A → Cmd W B → Cmd W B
  ◌>>◌ m k s = and_then (m s) (λ _. k)

module _ {W : Type 0} where
  abbrev pub pure : {A : Type 0} → A → Cmd W A
  pure a s = ok a s

  unfoldable pub load : Ptr → Cmd W Element
  load p s = elim (s.cells p) [ none ↦ fault | some e ↦ ok e s ]

  -- A write to the fields of an element, and the element given back.
  unfoldable pub modify : Ptr → (Element → Element) → Cmd W (Unit {0})
  modify p f s = elim (s.cells p) [
    | none ↦ fault
    | some e ↦ ok tt (record s { cells = write s.cells p (some (f e)) })
  ]

  unfoldable pub free : Ptr → Cmd W (Unit {0})
  free p s = elim (s.cells p) [
    | none ↦ fault
    | some e ↦ ok tt (record s { cells = write s.cells p none })
  ]

  unfoldable pub load_state : Ptr → Cmd W ListState
  load_state h s = elim (s.states h) [ none ↦ fault | some l ↦ ok l s ]

  abbrev pub store_state : Ptr → Option ListState → Cmd W (Unit {0})
  store_state h l s = ok tt (record s { states = write s.states h l })

  abbrev pub store_cell : Ptr → Element → Cmd W (Unit {0})
  store_cell p e s = ok tt (record s { cells = write s.cells p (some e) })

  -- A callback that acts on the world.
  abbrev pub act : {A : Type 0} → (W → A × W) → Cmd W A
  act f s = ok (f s.world).0 (record s { world = (f s.world).1 })
