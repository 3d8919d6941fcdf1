-- ===== src/Prelude/Decimal.antt =====
-- `std::to_string`: a number in decimal. The loop runs on fuel; `n` rounds are enough for `n`, as
-- the round trip shows.
use Prim.Native.Nat.{ℕ, zero, suc, ◌+◌, ◌*◌, ◌/◌, ◌%◌, ◌≤◌, ◌<◌}
use mathlib.Core.Path.{◌≡◌, refl, ap, ◌∙◌}
use mathlib.Core.Logic.{inl, inr}
use mathlib.Core.Bool.{true, false}
use mathlib.Core.List.{[], ◌∷◌, ◌++◌}
use native.Mathlib.Omega.{arith}
use multi_cctv_object_detect.Prelude.Tests.{ltb, if◌then◌else◌, Bool-cases, ltb→lt}
use multi_cctv_object_detect.Prelude.Int.{ℤ, pos, negsuc}
use multi_cctv_object_detect.Prelude.Text.{Bytes, digits_value, is_digit}

digits_loop : ℕ → ℕ → Bytes → Bytes
digits_loop zero n out = (b'0' + n % 10) ∷ out
digits_loop (suc fuel) n out =
    let rest = digits_loop fuel (n / 10) ((b'0' + n % 10) ∷ out) in
    if ltb n 10 then (b'0' + n) ∷ out else rest

unfoldable pub decimal : ℕ → Bytes
unfolding digits_loop
decimal n = digits_loop n n []

unfoldable pub to_string : ℤ → Bytes
unfolding decimal
to_string (pos n) = decimal n
to_string (negsuc n) = b'-' ∷ decimal (suc n)

digit_step :
    (m d : ℕ) (out : Bytes)
    → d < 10
    → digits_value m ((b'0' + d) ∷ out) ≡ digits_value (m * 10 + d) out
digit_step m d out h =
    let digit : is_digit (b'0' + d) ≡ true = ground arith in
    rw digit (ap (λ (k : ℕ). digits_value (m * 10 + k) out) (omega arith))

-- Reading the digits of `n` from the front, in front of those of `out`.
digits_value-loop :
    (fuel n : ℕ) (out : Bytes)
    → n ≤ fuel
    → digits_value 0 (digits_loop fuel n out) ≡ digits_value n out
unfolding digits_loop
digits_value-loop zero n out h =
    let e : n ≡ 0 = omega arith in rw e (digit_step 0 0 out (omega arith))
digits_value-loop (suc fuel) n out h = elim (Bool-cases (ltb n 10)) [
  | inl small ↦
      rw small
        (digit_step 0 n out (ltb→lt n 10 small) ∙ ap (λ (k : ℕ). digits_value k out) (omega arith))
  | inr large ↦ rw large (
      digits_value-loop fuel (n / 10) ((b'0' + n % 10) ∷ out) (ground arith)
      ∙ (digit_step (n / 10) (n % 10) out (omega arith)
          ∙ ap (λ (k : ℕ). digits_value k out) (omega arith)))
]

-- The decimal text of a number reads back as the number.
pub digits_value-decimal : (n : ℕ) → digits_value 0 (decimal n) ≡ n
unfolding decimal
digits_value-decimal n = digits_value-loop n n [] (omega arith)

-- `std::setfill('0') << std::setw(2)`
abbrev pub fill_2 : Bytes → Bytes
fill_2 [] = b'0' ∷ b'0' ∷ []
fill_2 (c ∷ []) = b'0' ∷ c ∷ []
fill_2 (c ∷ d ∷ s) = c ∷ d ∷ s

pub digits_value-fill_2 : (s : Bytes) → digits_value 0 (fill_2 s) ≡ digits_value 0 s
digits_value-fill_2 [] = refl
digits_value-fill_2 (c ∷ []) = refl
digits_value-fill_2 (c ∷ d ∷ s) = refl

-- A text of digits only.
abbrev pub Digits : Bytes → Type 0
Digits [] = Unit {0}
Digits (c ∷ s) = (is_digit c ≡ true) × Digits s

digits_loop-Digits : (fuel n : ℕ) (out : Bytes) → Digits out → Digits (digits_loop fuel n out)
unfolding digits_loop
digits_loop-Digits zero n out h = (ground arith, h)
digits_loop-Digits (suc fuel) n out h = elim (Bool-cases (ltb n 10)) [
  | inl small ↦ rw small (ground arith, h)
  | inr large ↦
      rw large (digits_loop-Digits fuel (n / 10) ((b'0' + n % 10) ∷ out) (ground arith, h))
]

pub decimal-Digits : (n : ℕ) → Digits (decimal n)
unfolding decimal
decimal-Digits n = digits_loop-Digits n n [] tt

pub fill_2-Digits : (s : Bytes) → Digits s → Digits (fill_2 s)
fill_2-Digits [] h = (refl, (refl, tt))
fill_2-Digits (c ∷ []) h = (refl, h)
fill_2-Digits (c ∷ d ∷ s) h = h

-- Where a text of digits ends is seen from the text.
pub Digits-end :
    (xs ys s t : Bytes) (c d : ℕ)
    → Digits xs
    → Digits ys
    → is_digit c ≡ false
    → is_digit d ≡ false
    → xs ++ c ∷ s ≡ ys ++ d ∷ t
    → (xs ≡ ys) × (c ∷ s ≡ d ∷ t)
Digits-end [] [] s t c d hx hy hc hd e = (refl, e)
Digits-end [] (y ∷ ys) s t c d hx hy hc hd e = absurd (ground (arith, hy))
Digits-end (x ∷ xs) [] s t c d hx hy hc hd e = absurd (ground (arith, hx))
Digits-end (x ∷ xs) (y ∷ ys) s t c d hx hy hc hd e =
    let (same, rest) = Digits-end xs ys s t c d hx.1 hy.1 hc hd (ground arith) in
    (ground arith, rest)
