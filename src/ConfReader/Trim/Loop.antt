-- ===== src/ConfReader/Trim/Loop.antt =====
-- The loop of `trim_space` against a trimmed text.
use device_samsung_msm8660_c.Common.{
  ℕ, zero, suc, ◌+◌, ◌≤◌, ◌<◌, true, false, ◌&&◌, some, [], ◌∷◌, ◌++◌, if◌then◌else◌, is_some,
  is_nil, length, ◌≡◌, ◌≢◌, refl, sym, ap, ◌∙◌, subst, arith, Bool-cases, inl, inr, length-append,
}
use device_samsung_msm8660_c.Agps.Types.{Text}
use device_samsung_msm8660_c.ConfReader.Trim.{
  Memory, store, is_space, Trimming, trim_step, trim_loop,
}

-- Bytes one behind the other, and a string with its end.
abbrev pub Bytes : Memory → ℕ → Text → Type 0
Bytes m a [] = Unit
Bytes m a (c ∷ t) = (m a ≡ c) × Bytes m (a + 1) t

abbrev pub Holds : Memory → ℕ → Text → Type 0
Holds m a [] = m a ≡ 0
Holds m a (c ∷ t) = (m a ≡ c) × (c ≢ 0) × Holds m (a + 1) t

-- A text without the spaces at its end, and at its front.
unfoldable pub strip_end : Text → Text
strip_end [] = []
strip_end (c ∷ t) = let rest = strip_end t in if is_nil rest && is_space c then [] else c ∷ rest

unfoldable pub strip_front : Text → Text
strip_front [] = []
strip_front (c ∷ t) = let rest = strip_front t in if is_space c then rest else c ∷ t

nil-snoc : (ws : Text) (c : ℕ) → is_nil (ws ++ c ∷ []) ≡ false
nil-snoc [] c = refl
nil-snoc (d ∷ ws) c = refl

strip_end-snoc :
    (ws : Text) (c : ℕ)
    → strip_end (ws ++ c ∷ []) ≡ (if is_space c then strip_end ws else ws ++ c ∷ [])
unfolding strip_end
strip_end-snoc [] c = ground arith
strip_end-snoc (d ∷ ws) c = elim (Bool-cases (is_space c)) [
  | inl space ↦ ground (arith, space, strip_end-snoc ws c)
  | inr ink ↦ ground (arith, ink, strip_end-snoc ws c, nil-snoc ws c)
]

plus_zero : (a : ℕ) → a + 0 ≡ a
plus_zero a = omega arith

pub append_nil : (ws : Text) → ws ++ [] ≡ ws
append_nil [] = refl
append_nil (d ∷ ws) = ap (λ t. d ∷ t) (append_nil ws)

pub append_assoc : (ws : Text) (c : ℕ) (rest : Text) → (ws ++ c ∷ []) ++ rest ≡ ws ++ c ∷ rest
append_assoc [] c rest = refl
append_assoc (d ∷ ws) c rest = ap (λ t. d ∷ t) (append_assoc ws c rest)

store-other : (m : Memory) (x c a : ℕ) → a ≢ x → store m x c a ≡ m a
unfolding store
store-other m x c a apart = ground (arith, apart)

pub store-same : (m : Memory) (x c : ℕ) → store m x c x ≡ c
unfolding store
store-same m x c = ground arith

store-Bytes :
    (m : Memory) (a x c : ℕ) (w : Text) → a + length w ≤ x → Bytes m a w → Bytes (store m x c) a w
store-Bytes m a x c [] far h = tt
store-Bytes m a x c (d ∷ w) far h = (
  store-other m x c a (λ e. ground (arith, far, e)) ∙ h.0,
  store-Bytes m (a + 1) x c w (omega (arith, far)) h.1,
)

snoc-Bytes :
    (m : Memory) (a c : ℕ) (w : Text) → Bytes m a w → m (a + length w) ≡ c → Bytes m a (w ++ c ∷ [])
snoc-Bytes m a c [] h last = (ground (arith, last, ap m (plus_zero a)), tt)
snoc-Bytes m a c (d ∷ w) h last = (h.0, snoc-Bytes m (a + 1) c w h.1 (ap m (omega arith) ∙ last))

pub store-Holds :
    (m : Memory) (a x c : ℕ) (w : Text) → x < a → Holds m a w → Holds (store m x c) a w
store-Holds m a x c [] far h = store-other m x c a (λ e. ground (arith, far, e)) ∙ h
store-Holds m a x c (d ∷ w) far h = (
  store-other m x c a (λ e. ground (arith, far, e)) ∙ h.0,
  h.1,
  store-Holds m (a + 1) x c w (omega (arith, far)) h.2,
)

-- No character is the end of the string.
abbrev pub NoEnd : Text → Type 0
NoEnd [] = Unit
NoEnd (c ∷ t) = (c ≢ 0) × NoEnd t

pub Holds-NoEnd : (m : Memory) (a : ℕ) (t : Text) → Holds m a t → NoEnd t
Holds-NoEnd m a [] h = tt
Holds-NoEnd m a (c ∷ t) h = (h.1, Holds-NoEnd m (a + 1) t h.2)

pub end-Holds :
    (m : Memory) (a : ℕ) (w : Text) → NoEnd w → Bytes m a w → Holds (store m (a + length w) 0) a w
end-Holds m a [] ne h = ap (store m (a + 0) 0) (sym (plus_zero a)) ∙ store-same m (a + 0) 0
end-Holds m a (c ∷ w) ne h = (
  store-other m (a + suc (length w)) 0 a (λ e. omega (arith, e)) ∙ h.0,
  ne.0,
  subst (λ x. Holds (store m x 0) (a + 1) w) (omega arith) (end-Holds m (a + 1) w ne.1 h.1),
)

pub strip_end-Bytes : (m : Memory) (a : ℕ) (w : Text) → Bytes m a w → Bytes m a (strip_end w)
unfolding strip_end
strip_end-Bytes m a [] h = tt
strip_end-Bytes m a (c ∷ w) h = ground (arith, h.0, strip_end-Bytes m (a + 1) w h.1)

pub strip_end-NoEnd : (w : Text) → NoEnd w → NoEnd (strip_end w)
unfolding strip_end
strip_end-NoEnd [] h = tt
strip_end-NoEnd (c ∷ w) h = ground (arith, h.0, strip_end-NoEnd w h.1)

-- The step behind the first character that is no space.
abbrev moved : Trimming → Trimming
moved t = record t {
  memory = store t.memory t.write_ptr (t.memory t.scan_ptr);
  scan_ptr = t.scan_ptr + 1;
  write_ptr = t.write_ptr + 1;
  last_nonspace =
      if is_space (t.memory t.scan_ptr) then t.last_nonspace else some (t.write_ptr + 1);
}

step-moved : (t : Trimming) → is_some t.first_nonspace ≡ true → trim_step t ≡ moved t
unfolding trim_step
step-moved t going = ground (arith, going)

-- The loop has copied a text, and stands before another.
pub record Copied (p : ℕ) (ws rest : Text) (t : Trimming) : Type 0 where
  pub going : is_some t.first_nonspace ≡ true
  pub copied : Bytes t.memory p ws
  pub write_at : t.write_ptr ≡ p + length ws
  pub behind : t.write_ptr ≤ t.scan_ptr
  pub unread : Holds t.memory t.scan_ptr rest
  pub last_at : t.last_nonspace ≡ some (p + length (strip_end ws))

moved-last :
    (p c : ℕ) (ws : Text) (t : Trimming)
    → t.memory t.scan_ptr ≡ c
    → t.write_ptr ≡ p + length ws
    → t.last_nonspace ≡ some (p + length (strip_end ws))
    → (moved t).last_nonspace ≡ some (p + length (strip_end (ws ++ c ∷ [])))
moved-last p c ws t read write_at last_at = elim (Bool-cases (is_space c)) [
  | inl space ↦ grind (arith, space, read, last_at, strip_end-snoc ws c)
  | inr ink ↦ grind (arith, ink, read, write_at, strip_end-snoc ws c, length-append ws (c ∷ []))
]

moved-Copied :
    (p c : ℕ) (ws rest : Text) (t : Trimming)
    → Copied p ws (c ∷ rest) t
    → Copied p (ws ++ c ∷ []) rest (moved t)
moved-Copied p c ws rest t h = record {
  going = h.going;
  copied =
      snoc-Bytes (moved t).memory p c ws
        (store-Bytes t.memory p t.write_ptr (t.memory t.scan_ptr) ws (omega (arith, h.write_at))
          h.copied)
        (subst (λ x. store t.memory t.write_ptr (t.memory t.scan_ptr) x ≡ c) h.write_at
          (store-same t.memory t.write_ptr (t.memory t.scan_ptr) ∙ h.unread.0));
  write_at = omega (arith, h.write_at, length-append ws (c ∷ []));
  behind = omega (arith, h.behind);
  unread =
      store-Holds t.memory (t.scan_ptr + 1) t.write_ptr (t.memory t.scan_ptr) rest
        (omega (arith, h.behind)) h.unread.2;
  last_at = moved-last p c ws t h.unread.0 h.write_at h.last_at;
}

pub loop-on :
    (n : ℕ) (t : Trimming) (c : ℕ)
    → t.memory t.scan_ptr ≡ c
    → c ≢ 0
    → trim_loop (suc n) t ≡ trim_loop n (trim_step t)
unfolding trim_loop
loop-on n t c read more = ground (arith, read, more)

-- The loop ends behind the whole text.
pub loop-Copied :
    (n p : ℕ) (ws rest : Text) (t : Trimming)
    → length rest < n
    → Copied p ws rest t
    → (t' : Trimming) × (trim_loop n t ≡ some t') × Copied p (ws ++ rest) [] t'
unfolding trim_loop
loop-Copied zero p ws rest t few h = absurd (omega (arith, few))
loop-Copied (suc n) p ws [] t few h =
    (t, ground (arith, h.unread), subst (λ u. Copied p u [] t) (sym (append_nil ws)) h)
loop-Copied (suc n) p ws (c ∷ rest) t few h =
    let (t', ends, copied) =
      loop-Copied n p (ws ++ c ∷ []) rest (moved t) (omega (arith, few))
        (moved-Copied p c ws rest t h) in
    (
      t',
      loop-on n t c h.unread.0 h.unread.1 ∙ ap (trim_loop n) (step-moved t h.going) ∙ ends,
      subst (λ u. Copied p u [] t') (append_assoc ws c rest) copied,
    )
