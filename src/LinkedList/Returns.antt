-- ===== src/LinkedList/Returns.antt =====
-- Total correctness of a run, and what a run leaves alone.
use device_samsung_msm8660_c.Common.{◌≡◌, ◌≢◌, false, List}
use device_samsung_msm8660_c.LinkedList.Store.{
  Ptr, Store, Run, ok, fault, out_of_fuel, Cmd, and_then,
}
use device_samsung_msm8660_c.LinkedList.Chain.{Node, has}

-- The run ends without a fault and with fuel to spare, in a result and a store with `P`.
abbrev pub Returns : {W A : Type 0} → (A → Store W → Type 0) → Run W A → Type 0
Returns P (ok a s) = P a s
Returns P fault = ⊥
Returns P out_of_fuel = ⊥

-- Nothing changes but the state at `h` and the nodes of `ns`.
pub record Spares {W : Type 0} (h : Ptr) (ns : List Node) (s s' : Store W) : Type 0 where
  pub cells : (a : Ptr) → has a ns ≡ false → s'.cells a ≡ s.cells a
  pub states : (g : Ptr) → g ≢ h → s'.states g ≡ s.states g

module _ {W A : Type 0} where
  pub Returns-bind :
      {B : Type 0} (r : Run W A) (k : A → Cmd W B) (P : A → Store W → Type 0)
      (Q : B → Store W → Type 0)
      → Returns P r
      → ((a : A) (s : Store W) → P a s → Returns Q (k a s))
      → Returns Q (and_then r k)
  Returns-bind (ok a s) k P Q p next = next a s p
  Returns-bind fault k P Q p next = absurd p
  Returns-bind out_of_fuel k P Q p next = absurd p

  pub Returns-mono :
      (r : Run W A) (P Q : A → Store W → Type 0)
      → Returns P r
      → ((a : A) (s : Store W) → P a s → Q a s)
      → Returns Q r
  Returns-mono (ok a s) P Q p weaken = weaken a s p
  Returns-mono fault P Q p weaken = p
  Returns-mono out_of_fuel P Q p weaken = p
