-- ===== src/LinkedList/Tail.antt =====
-- Taking the tail of a sequence.
use device_samsung_msm8660_c.Common.{◌≡◌, refl, ap, some, List, [], ◌∷◌, ◌++◌, ◌⊎◌, inl, inr}
use device_samsung_msm8660_c.LinkedList.Abstract.{remove}

module _ {A : Type 0} where
  pub remove-snoc : (xs : List A) (x : A) → remove (xs ++ x ∷ []) ≡ some (x, xs)
  unfolding remove
  remove-snoc [] x = refl
  remove-snoc (y ∷ ys) x = rw (remove-snoc ys x)

  -- The members, the oldest first, where new ones are put in front.
  abbrev pub oldest_first : List A → List A
  oldest_first [] = []
  oldest_first (x ∷ xs) = oldest_first xs ++ x ∷ []

  pub oldest_first-snoc : (xs : List A) (x : A) → oldest_first (xs ++ x ∷ []) ≡ x ∷ oldest_first xs
  oldest_first-snoc [] x = refl
  oldest_first-snoc (y ∷ ys) x = ap (λ os. os ++ y ∷ []) (oldest_first-snoc ys x)

  -- A sequence is empty or has a tail.
  pub unsnoc : (xs : List A) → (xs ≡ []) ⊎ ((ys : List A) × (y : A) × (xs ≡ ys ++ y ∷ []))
  unsnoc [] = inl refl
  unsnoc (x ∷ xs) = elim (unsnoc xs) [
    | inl e ↦ inr ([], x, ap (λ os. x ∷ os) e)
    | inr (ys, y, e) ↦ inr (x ∷ ys, y, ap (λ os. x ∷ os) e)
  ]
