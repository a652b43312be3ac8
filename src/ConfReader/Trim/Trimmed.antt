-- ===== src/ConfReader/Trim/Trimmed.antt =====
-- `trim_space` as a whole.
use device_samsung_msm8660_c.Common.{
  ℕ, zero, suc, ◌+◌, ◌≤◌, ◌<◌, Bool, true, false, not, Option, none, some, [], ◌∷◌, if◌then◌else◌,
  length, any, ◌≡◌, ◌≢◌, refl, sym, ap, ◌∙◌, subst, arith, Bool-cases, inl, inr,
}
use device_samsung_msm8660_c.Agps.Types.{Text}
use device_samsung_msm8660_c.ConfReader.Trim.{
  Memory, store, is_space, Trimming, trim_step, trim_loop, cut, trim_space,
}
use device_samsung_msm8660_c.ConfReader.Trim.Loop.{
  Holds, NoEnd, strip_end, strip_front, Copied, loop-on, loop-Copied, Holds-NoEnd, end-Holds,
  strip_end-Bytes, strip_end-NoEnd, store-same, store-Holds,
}

abbrev pub has_ink : Text → Bool
has_ink t = any (λ c. not (is_space c)) t

-- A text without spaces at its ends; one of spaces only is left as it is.
unfoldable pub trimmed : Text → Text
unfolding strip_front strip_end
trimmed s = if has_ink s then strip_end (strip_front s) else s

-- The loop before the first character that is no space.
abbrev pub searching : Memory → (org scan : ℕ) → Trimming
searching m org scan = record {
  memory = m;
  scan_ptr = scan;
  write_ptr = org;
  first_nonspace = none;
  last_nonspace = none;
}

abbrev pub found : Memory → (org scan : ℕ) → Trimming
found m org scan = record {
  memory = store m org (m scan);
  scan_ptr = scan + 1;
  write_ptr = org + 1;
  first_nonspace = some scan;
  last_nonspace = some (org + 1);
}

step-space :
    (m : Memory) (org scan : ℕ)
    → is_space (m scan) ≡ true
    → trim_step (searching m org scan) ≡ searching m org (scan + 1)
unfolding trim_step
step-space m org scan space = ground (arith, space)

step-ink :
    (m : Memory) (org scan : ℕ)
    → is_space (m scan) ≡ false
    → trim_step (searching m org scan) ≡ found m org scan
unfolding trim_step
step-ink m org scan ink = ground (arith, ink)

strip_end-ink : (c : ℕ) → is_space c ≡ false → length (strip_end (c ∷ [])) ≡ 1
unfolding strip_end
strip_end-ink c ink = ground (arith, ink)

found-Copied :
    (m : Memory) (org scan c : ℕ) (rest : Text)
    → org ≤ scan
    → m scan ≡ c
    → is_space c ≡ false
    → Holds m (scan + 1) rest
    → Copied org (c ∷ []) rest (found m org scan)
found-Copied m org scan c rest before read ink unread = record {
  going = refl;
  copied = (store-same m org (m scan) ∙ read, tt);
  write_at = refl;
  behind = omega (arith, before);
  unread = store-Holds m (scan + 1) org (m scan) rest (omega (arith, before)) unread;
  last_at = ap (λ n. some (org + n)) (sym (strip_end-ink c ink));
}

-- What the whole function leaves.
abbrev pub Leaves : Option Memory → ℕ → Text → Type 0
Leaves o org s = (m' : Memory) × (o ≡ some m') × Holds m' org s

cut-Leaves :
    (org : ℕ) (s : Text) (t : Trimming)
    → NoEnd s
    → Copied org s [] t
    → Leaves (cut (some t)) org (strip_end s)
cut-Leaves org s t whole h = (
  store t.memory (org + length (strip_end s)) 0,
  ground (arith, h.last_at),
  end-Holds t.memory org (strip_end s) (strip_end-NoEnd s whole)
      (strip_end-Bytes t.memory org s h.copied),
)

front-space : (c : ℕ) (t : Text) → is_space c ≡ true → strip_front (c ∷ t) ≡ strip_front t
unfolding strip_front
front-space c t space = ground (arith, space)

front-ink : (c : ℕ) (t : Text) → is_space c ≡ false → strip_front (c ∷ t) ≡ c ∷ t
unfolding strip_front
front-ink c t ink = ground (arith, ink)

no_ink : has_ink [] ≢ true
no_ink = ground arith

loop-end : (n : ℕ) (t : Trimming) → t.memory t.scan_ptr ≡ 0 → trim_loop (suc n) t ≡ some t
unfolding trim_loop
loop-end n t over = ground (arith, over)

skip-space :
    (n org scan c : ℕ) (m : Memory)
    → m scan ≡ c
    → c ≢ 0
    → is_space c ≡ true
    → trim_loop (suc n) (searching m org scan) ≡ trim_loop n (searching m org (scan + 1))
skip-space n org scan c m read more space =
    loop-on n (searching m org scan) c read more
    ∙ ap (trim_loop n) (step-space m org scan (ap is_space read ∙ space))

loop-Leaves :
    (n org scan : ℕ) (m : Memory) (rest : Text)
    → length rest < n
    → org ≤ scan
    → Holds m scan rest
    → has_ink rest ≡ true
    → Leaves (cut (trim_loop n (searching m org scan))) org (strip_end (strip_front rest))
loop-Leaves zero org scan m rest few before h ink = absurd (omega (arith, few))
loop-Leaves (suc n) org scan m [] few before h ink = absurd (no_ink ink)
loop-Leaves (suc n) org scan m (c ∷ rest) few before h ink = elim (Bool-cases (is_space c)) [
  | inl space ↦
      let later =
        loop-Leaves n org (scan + 1) m rest (omega (arith, few)) (omega (arith, before)) h.2
          (ground (arith, space, ink)) in
      subst (λ u. Leaves (cut (trim_loop (suc n) (searching m org scan))) org (strip_end u))
        (sym (front-space c rest space))
        (subst (λ o. Leaves (cut o) org (strip_end (strip_front rest)))
          (sym (skip-space n org scan c m h.0 h.1 space)) later)
  | inr here ↦
      let (t', ends, copied) =
        loop-Copied n org (c ∷ []) rest (found m org scan) (omega (arith, few))
          (found-Copied m org scan c rest before h.0 here h.2) in
      let whole = cut-Leaves org (c ∷ rest) t' (h.1, Holds-NoEnd m (scan + 1) rest h.2) copied in
      subst (λ u. Leaves (cut (trim_loop (suc n) (searching m org scan))) org (strip_end u))
        (sym (front-ink c rest here))
        (subst (λ o. Leaves (cut o) org (strip_end (c ∷ rest)))
          (sym (
            loop-on n (searching m org scan) c h.0 h.1
            ∙ ap (trim_loop n) (step-ink m org scan (ap is_space h.0 ∙ here))
            ∙ ends))
          whole)
]

-- A string of spaces only is passed without a change.
loop-spaces :
    (n org scan : ℕ) (m : Memory) (rest : Text)
    → length rest < n
    → Holds m scan rest
    → has_ink rest ≡ false
    → cut (trim_loop n (searching m org scan)) ≡ some m
loop-spaces zero org scan m rest few h blank = absurd (omega (arith, few))
loop-spaces (suc n) org scan m [] few h blank = ap cut (loop-end n (searching m org scan) h)
loop-spaces (suc n) org scan m (c ∷ rest) few h blank =
    let space : is_space c ≡ true = ground (arith, blank) in
    ap cut (skip-space n org scan c m h.0 h.1 space)
    ∙ loop-spaces n org (scan + 1) m rest (omega (arith, few)) h.2 (ground (arith, blank))

-- With fuel for its length, `trim_space` ends, and where a string stood it leaves that string without
-- the spaces at its front and at its end; a string of spaces only is left as it is.
pub trim_space-Leaves :
    (fuel org_string : ℕ) (m : Memory) (s : Text)
    → length s < fuel
    → Holds m org_string s
    → Leaves (trim_space fuel org_string m) org_string (trimmed s)
unfolding trim_space trimmed
trim_space-Leaves fuel org_string m s enough h = elim (Bool-cases (has_ink s)) [
  | inl ink ↦
      subst (λ u. Leaves (cut (trim_loop fuel (searching m org_string org_string))) org_string u)
        (ground (arith, ink))
        (loop-Leaves fuel org_string org_string m s enough (omega arith) h ink)
  | inr blank ↦
      subst (λ u. Leaves (cut (trim_loop fuel (searching m org_string org_string))) org_string u)
        (ground (arith, blank)) (m, loop-spaces fuel org_string org_string m s enough h blank, h)
]
