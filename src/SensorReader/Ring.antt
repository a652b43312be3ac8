-- ===== src/SensorReader/Ring.antt =====
-- Reading a ring of cells.
use device_samsung_msm8660_c.Common.{
  ℕ, zero, suc, ◌+◌, ◌-◌, ◌≤◌, ◌<◌, ◌≡◌, refl, sym, ap, ap₂, subst, Option, none, some, List, [],
  ◌∷◌, ◌++◌, arith, length, ltb, leb, if◌then◌else◌,
}
use device_samsung_msm8660_c.SensorReader.{write_at}

-- The cell after one, and any cell up to twice around, in a ring of `n`.
abbrev pub after : ℕ → ℕ → ℕ
after n c = if leb n (c + 1) then 0 else c + 1

abbrev pub wrap : ℕ → ℕ → ℕ
wrap n i = if ltb i n then i else i - n

wrap-zero : (n c : ℕ) → c < n → wrap n (c + 0) ≡ c
wrap-zero n c lt = ground arith

wrap-suc : (n c i : ℕ) → c < n → i < n → wrap n (after n c + i) ≡ wrap n (c + suc i)
wrap-suc n c i lt lt' = ground arith

add_suc : (h i : ℕ) → h + 1 + i ≡ h + suc i
add_suc h i = omega arith

zero_add : (b : ℕ) → 0 + b ≡ b
zero_add b = omega arith

suc_add : (a b : ℕ) → suc a + b ≡ suc (a + b)
suc_add a b = omega arith

module _ {E : Type 0} where
  -- The events in `k` cells of the ring from `c` on.
  abbrev pub cells_from : ℕ → ℕ → ℕ → (ℕ → E) → List E
  cells_from n zero c cells = []
  cells_from n (suc k) c cells = cells c ∷ cells_from n k (after n c) cells

  pub length-cells_from : (n k c : ℕ) (cells : ℕ → E) → length (cells_from n k c cells) ≡ k
  length-cells_from n zero c cells = refl
  length-cells_from n (suc k) c cells = ap suc (length-cells_from n k (after n c) cells)

  pub cells_from-add :
      (n a b c : ℕ) (cells : ℕ → E)
      → c < n
      → a ≤ n
      → cells_from n (a + b) c cells
        ≡ cells_from n a c cells ++ cells_from n b (wrap n (c + a)) cells
  cells_from-add n zero b c cells lt le = rw (zero_add b, wrap-zero n c lt)
  cells_from-add n (suc a) b c cells lt le =
      rw (suc_add a b, sym (wrap-suc n c a lt (omega (arith, le))))
        (ap (λ es. cells c ∷ es)
          (cells_from-add n a b (after n c) cells (ground arith) (omega (arith, le))))

  pub cells_from-agree :
      (n k c : ℕ) (cells cells' : ℕ → E)
      → c < n
      → k ≤ n
      → ((i : ℕ) → i < k → cells' (wrap n (c + i)) ≡ cells (wrap n (c + i)))
      → cells_from n k c cells' ≡ cells_from n k c cells
  cells_from-agree n zero c cells cells' lt le same = refl
  cells_from-agree n (suc k) c cells cells' lt le same =
      ap₂ (λ e es. e ∷ es) (same_first)
        (cells_from-agree n k (after n c) cells cells' (ground arith) (omega (arith, le)) same_rest)
    where
      same_first : cells' c ≡ cells c
      same_first = subst (λ j. cells' j ≡ cells j) (wrap-zero n c lt) (same 0 (omega (arith, le)))

      same_rest : (i : ℕ) → i < k → cells' (wrap n (after n c + i)) ≡ cells (wrap n (after n c + i))
      same_rest i below =
          subst (λ j. cells' j ≡ cells j) (sym (wrap-suc n c i lt (omega (arith, le, below))))
            (same (suc i) (omega (arith, below)))

  abbrev pub get_elem? : List E → ℕ → Option E
  get_elem? [] i = none
  get_elem? (e ∷ es) zero = some e
  get_elem? (e ∷ es) (suc i) = get_elem? es i

  pub get_elem?-bound : (es : List E) (i : ℕ) (e : E) → get_elem? es i ≡ some e → i < length es
  get_elem?-bound [] i e h = ground arith
  get_elem?-bound (d ∷ es) zero e h = omega arith
  get_elem?-bound (d ∷ es) (suc i) e h = omega (arith, get_elem?-bound es i e h)

  pub write_at-hit :
      (h : ℕ) (es : List E) (cells : ℕ → E) (i : ℕ) (e : E)
      → get_elem? es i ≡ some e
      → write_at h es cells (h + i) ≡ e
  unfolding write_at
  write_at-hit h [] cells i e g = ground arith
  write_at-hit h (d ∷ es) cells zero e g = ground arith
  write_at-hit h (d ∷ es) cells (suc i) e g = ground (
    arith,
    subst (λ j. write_at (h + 1) es cells j ≡ e) (add_suc h i)
        (write_at-hit (h + 1) es cells i e g),
  )

  pub write_at-low :
      (h : ℕ) (es : List E) (cells : ℕ → E) (i : ℕ) → i < h → write_at h es cells i ≡ cells i
  unfolding write_at
  write_at-low h [] cells i lt = refl
  write_at-low h (d ∷ es) cells i lt =
      ground (arith, write_at-low (h + 1) es cells i (omega (arith, lt)))

  pub write_at-high :
      (h : ℕ) (es : List E) (cells : ℕ → E) (i : ℕ)
      → h + length es ≤ i
      → write_at h es cells i ≡ cells i
  unfolding write_at
  write_at-high h [] cells i le = refl
  write_at-high h (d ∷ es) cells i le =
      ground (arith, write_at-high (h + 1) es cells i (omega (arith, le)))

  pub cells_from-reads :
      (n c : ℕ) (es : List E) (cells : ℕ → E)
      → c < n
      → length es ≤ n
      → ((i : ℕ) (e : E) → get_elem? es i ≡ some e → cells (wrap n (c + i)) ≡ e)
      → cells_from n (length es) c cells ≡ es
  cells_from-reads n c [] cells lt le all = refl
  cells_from-reads n c (e ∷ es) cells lt le all =
      ap₂ (λ d ds. d ∷ ds) all_first
        (cells_from-reads n (after n c) es cells (ground arith) (omega (arith, le)) all_rest)
    where
      all_first : cells c ≡ e
      all_first = subst (λ j. cells j ≡ e) (wrap-zero n c lt) (all 0 e refl)

      all_rest : (i : ℕ) (d : E) → get_elem? es i ≡ some d → cells (wrap n (after n c + i)) ≡ d
      all_rest i d g =
          subst (λ j. cells j ≡ d)
            (sym (wrap-suc n c i lt (omega (arith, le, get_elem?-bound es i d g))))
            (all (suc i) d g)
