-- ===== src/TimeStamp/Distinct.antt =====
-- include/time/timestamp.h: different times have different texts.
use multi_cctv_object_detect.Prelude.{
  ℕ, ◌+◌, [], ◌∷◌, ◌++◌, ◌≡◌, refl, sym, ap, ◌∙◌, false, append_assoc, arith, Bytes, decimal,
  is_digit, digits_value, digits_value-decimal, digits_value-fill_2, Digits, decimal-Digits,
  fill_2-Digits, Digits-end,
}
use multi_cctv_object_detect.TimeStamp.{Tm, year_text, two_digits, time_stamp}

two_digits-Digits : (n : ℕ) → Digits (two_digits n)
two_digits-Digits n = fill_2-Digits (decimal n) (decimal-Digits n)

two_digits-injective : (n n' : ℕ) → two_digits n ≡ two_digits n' → n ≡ n'
two_digits-injective n n' e =
    sym (digits_value-fill_2 (decimal n) ∙ digits_value-decimal n)
    ∙ ap (digits_value 0) e
    ∙ digits_value-fill_2 (decimal n')
    ∙ digits_value-decimal n'

decimal-injective : (n n' : ℕ) → decimal n ≡ decimal n' → n ≡ n'
decimal-injective n n' e =
    sym (digits_value-decimal n) ∙ ap (digits_value 0) e ∙ digits_value-decimal n'

-- What follows a number of two digits and a byte that is no digit.
two_digits-end :
    (n n' : ℕ) (s s' : Bytes) (c d : ℕ)
    → is_digit c ≡ false
    → is_digit d ≡ false
    → two_digits n ++ c ∷ s ≡ two_digits n' ++ d ∷ s'
    → (n ≡ n') × (c ∷ s ≡ d ∷ s')
two_digits-end n n' s s' c d hc hd e =
    let (same, rest) =
      Digits-end (two_digits n) (two_digits n') s s' c d (two_digits-Digits n)
        (two_digits-Digits n') hc hd e in
    (two_digits-injective n n' same, rest)

abbrev behind : Bytes → Bytes
behind [] = []
behind (c ∷ s) = s

-- The same inside a longer text.
two_digits-within :
    (n n' : ℕ) (r r' u u' : Bytes) (c : ℕ)
    → is_digit c ≡ false
    → (two_digits n ++ c ∷ r) ++ u ≡ (two_digits n' ++ c ∷ r') ++ u'
    → (n ≡ n') × (r ++ u ≡ r' ++ u')
two_digits-within n n' r r' u u' c h e =
    let (same, rest) = two_digits-end n n' (r ++ u) (r' ++ u') c c h h (
      sym (append_assoc (two_digits n) (c ∷ r) u) ∙ e ∙ append_assoc (two_digits n') (c ∷ r') u') in
    (same, ap behind rest)

year_text-within :
    (t t' : Tm) (r r' u u' : Bytes) (c : ℕ)
    → is_digit c ≡ false
    → (year_text t ++ c ∷ r) ++ u ≡ (year_text t' ++ c ∷ r') ++ u'
    → (t.tm_year ≡ t'.tm_year) × (r ++ u ≡ r' ++ u')
year_text-within t t' r r' u u' c h e =
    let (same, rest) =
      Digits-end (year_text t) (year_text t') (r ++ u) (r' ++ u') c c
        (decimal-Digits (t.tm_year + 1900)) (decimal-Digits (t'.tm_year + 1900)) h h
        (sym (append_assoc (year_text t) (c ∷ r) u)
          ∙ e
          ∙ append_assoc (year_text t') (c ∷ r') u') in
    (omega (arith, decimal-injective (t.tm_year + 1900) (t'.tm_year + 1900) same), ap behind rest)

-- A text of a time, before a byte that is no digit, and what follows.
pub time_stamp-end :
    (t t' : Tm) (s s' : Bytes) (c d : ℕ)
    → is_digit c ≡ false
    → is_digit d ≡ false
    → time_stamp t ++ c ∷ s ≡ time_stamp t' ++ d ∷ s'
    → (t ≡ t') × (c ∷ s ≡ d ∷ s')
unfolding time_stamp
time_stamp-end t t' s s' c d hc hd e =
    let (year, e₁) = year_text-within t t' _ _ (c ∷ s) (d ∷ s') b'_' refl e in
    let (month, e₂) =
      two_digits-within (t.tm_mon + 1) (t'.tm_mon + 1) _ _ (c ∷ s) (d ∷ s') b'_' refl e₁ in
    let (day, e₃) = two_digits-within t.tm_mday t'.tm_mday _ _ (c ∷ s) (d ∷ s') b'_' refl e₂ in
    let (hour, e₄) =
      two_digits-within t.tm_hour t'.tm_hour _ _ (c ∷ s) (d ∷ s') b'_' refl (ap behind e₃) in
    let (minute, e₅) = two_digits-within t.tm_min t'.tm_min _ _ (c ∷ s) (d ∷ s') b'_' refl e₄ in
    let (second, e₆) = two_digits-end t.tm_sec t'.tm_sec s s' c d hc hd e₅ in (ground arith, e₆)
