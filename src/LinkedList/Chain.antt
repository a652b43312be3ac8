-- ===== src/LinkedList/Chain.antt =====
-- What a well-formed list is: its elements, linked both ways, at distinct addresses.
use device_samsung_msm8660_c.Common.{
  ◌≡◌, ◌≢◌, refl, sym, ◌∙◌, Bool, true, false, ◌||◌, Option, some, List, [], ◌∷◌, ◌++◌, arith, ◌==◌,
  Bool-cases, inl, inr,
}
use device_samsung_msm8660_c.LinkedList.Store.{Ptr, null, Element, Store, write}
use device_samsung_msm8660_c.LinkedList.Code.{set_next}

-- An element as its clients see it, with its address.
pub record Node : Type 0 where
  pub addr : Ptr
  pub data_ptr : Ptr
  pub dealloc_func : Ptr

abbrev pub element : Node → Ptr → Ptr → Element
element n next prev = record {
  next = next;
  prev = prev;
  data_ptr = n.data_ptr;
  dealloc_func = n.dealloc_func;
}

abbrev pub first : List Node → Ptr → Ptr
first [] stop = stop
first (n ∷ ns) stop = n.addr

abbrev pub last : List Node → Ptr → Ptr
last [] start = start
last (n ∷ ns) start = last ns n.addr

abbrev pub has : Ptr → List Node → Bool
has a [] = false
has a (n ∷ ns) = (a == n.addr) || has a ns

-- From `start`, whose `next` leads to the first node, the nodes are linked up to `stop`.
abbrev pub Chain : (Ptr → Option Element) → Ptr → List Node → Ptr → Type 0
Chain c start [] stop = Unit
Chain c start (n ∷ ns) stop =
    (c n.addr ≡ some (element n (first ns stop) start)) × Chain c n.addr ns stop

abbrev pub Distinct : List Node → Type 0
Distinct [] = Unit
Distinct (n ∷ ns) = (n.addr ≢ null) × (has n.addr ns ≡ false) × Distinct ns

-- The list at handle `h` of store `s` holds these nodes, head first.
pub record IsList {W : Type 0} (s : Store W) (h : Ptr) (ns : List Node) : Type 0 where
  pub handle : h ≢ null
  pub state : s.states h ≡ some (record { p_head = first ns null; p_tail = last ns null })
  pub chain : Chain s.cells null ns null
  pub distinct : Distinct ns

pub first-append :
    (xs ys : List Node) (stop : Ptr) → first (xs ++ ys) stop ≡ first xs (first ys stop)
first-append [] ys stop = refl
first-append (x ∷ xs) ys stop = refl

pub last-append :
    (xs ys : List Node) (start : Ptr) → last (xs ++ ys) start ≡ last ys (last xs start)
last-append [] ys start = refl
last-append (x ∷ xs) ys start = last-append xs ys x.addr

pub has-append : (a : Ptr) (xs ys : List Node) → has a (xs ++ ys) ≡ (has a xs || has a ys)
has-append a [] ys = refl
has-append a (x ∷ xs) ys = ground (arith, has-append a xs ys)

pub has-last : (n : Node) (ns : List Node) → has (last ns n.addr) (n ∷ ns) ≡ true
has-last n [] = ground arith
has-last n (m ∷ ns) = ground (arith, has-last m ns)

-- What is in a list is not what is outside it.
pub has-apart : (a b : Ptr) (xs : List Node) → has a xs ≡ true → has b xs ≡ false → (b == a) ≡ false
has-apart a b [] inside out = cc
has-apart a b (x ∷ xs) inside out = ground (arith, has-apart a b xs)

pub last-ne_null : (n : Node) (ns : List Node) → Distinct (n ∷ ns) → last ns n.addr ≢ null
last-ne_null n [] d = d.0
last-ne_null n (m ∷ ns) d = last-ne_null m ns d.2

module _ (c : Ptr → Option Element) where
  pub Chain-split :
      (xs ys : List Node) (start stop : Ptr)
      → Chain c start (xs ++ ys) stop
      → Chain c start xs (first ys stop) × Chain c (last xs start) ys stop
  Chain-split [] ys start stop h = (tt, h)
  Chain-split (x ∷ xs) ys start stop h =
      let (front, back) = Chain-split xs ys x.addr stop h.1 in
      ((rw (← first-append xs ys stop) h.0, front), back)

  pub Chain-join :
      (xs ys : List Node) (start stop : Ptr)
      → Chain c start xs (first ys stop)
      → Chain c (last xs start) ys stop
      → Chain c start (xs ++ ys) stop
  Chain-join [] ys start stop h k = k
  Chain-join (x ∷ xs) ys start stop h k =
      (rw (first-append xs ys stop) h.0, Chain-join xs ys x.addr stop h.1 k)

  -- A write elsewhere leaves a chain as it is.
  pub Chain-write :
      (a : Ptr) (v : Option Element) (xs : List Node) (start stop : Ptr)
      → has a xs ≡ false
      → Chain c start xs stop
      → Chain (write c a v) start xs stop
  Chain-write a v [] start stop out h = tt
  Chain-write a v (x ∷ xs) start stop out h =
      (ground arith, Chain-write a v xs x.addr stop (ground arith) h.1)

  -- The last node's `next` is rewritten.
  pub Chain-relink_next :
      (x : Node) (xs : List Node) (start stop stop' : Ptr)
      → Distinct (x ∷ xs)
      → Chain c start (x ∷ xs) stop
      → (e : Element) × (c (last xs x.addr) ≡ some e)
        × Chain (write c (last xs x.addr) (some (set_next stop' e))) start (x ∷ xs) stop'
  Chain-relink_next x [] start stop stop' d h = (element x stop start, h.0, (ground arith, tt))
  Chain-relink_next x (y ∷ ys) start stop stop' d h =
      let (e, at, rest) = Chain-relink_next y ys x.addr stop stop' d.2 h.1 in
      (e, at, (rw (has-apart (last ys y.addr) x.addr (y ∷ ys) (has-last y ys) d.1) h.0, rest))

  -- The first node's `prev` is rewritten.
  pub Chain-relink_prev :
      (x : Node) (xs : List Node) (start start' stop : Ptr)
      → Distinct (x ∷ xs)
      → Chain c start (x ∷ xs) stop
      → Chain (write c x.addr (some (element x (first xs stop) start'))) start' (x ∷ xs) stop
  Chain-relink_prev x xs start start' stop d h =
      (ground arith, Chain-write x.addr _ xs x.addr stop d.1 h.1)

pub Distinct-front : (xs ys : List Node) → Distinct (xs ++ ys) → Distinct xs
Distinct-front [] ys d = tt
Distinct-front (x ∷ xs) ys d =
    (d.0, ground (arith, has-append x.addr xs ys, d.1), Distinct-front xs ys d.2)

pub Distinct-back : (xs ys : List Node) → Distinct (xs ++ ys) → Distinct ys
Distinct-back [] ys d = d
Distinct-back (x ∷ xs) ys d = Distinct-back xs ys d.2

-- The two parts of a list share no node.
pub Distinct-apart :
    (a : Ptr) (xs ys : List Node) → Distinct (xs ++ ys) → has a ys ≡ true → has a xs ≡ false
Distinct-apart a [] ys d inside = refl
Distinct-apart a (x ∷ xs) ys d inside =
    ground (
      arith,
      has-append x.addr xs ys,
      d.1,
      Distinct-apart a xs ys d.2,
      has-apart a x.addr ys inside,
    )

-- A chain stands wherever the cells of its nodes are the same.
pub Chain-frame :
    (c c' : Ptr → Option Element) (xs : List Node) (start stop : Ptr)
    → ((a : Ptr) → has a xs ≡ true → c' a ≡ c a)
    → Chain c start xs stop
    → Chain c' start xs stop
Chain-frame c c' [] start stop same h = tt
Chain-frame c c' (x ∷ xs) start stop same h = (
  same x.addr (ground arith) ∙ h.0,
  Chain-frame c c' xs x.addr stop (λ a inside. same a (ground arith)) h.1,
)

pub Distinct-apart_back :
    (a : Ptr) (xs ys : List Node) → Distinct (xs ++ ys) → has a xs ≡ true → has a ys ≡ false
Distinct-apart_back a xs ys d inside = elim (Bool-cases (has a ys)) [
  | inl there ↦ absurd (clash (sym inside ∙ Distinct-apart a xs ys d there))
  | inr out ↦ out
]
  where
    clash : true ≡ false → ⊥
    clash e = cc

-- A node of the middle gone, the others stay distinct.
pub Distinct-drop : (c : Node) (xs ys : List Node) → Distinct (xs ++ c ∷ ys) → Distinct (xs ++ ys)
Distinct-drop c [] ys d = d.2
Distinct-drop c (x ∷ xs) ys d = (
  d.0,
  ground (arith, has-append x.addr xs ys, has-append x.addr xs (c ∷ ys), d.1),
  Distinct-drop c xs ys d.2,
)
