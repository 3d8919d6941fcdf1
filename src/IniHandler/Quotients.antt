-- ===== src/IniHandler/Quotients.antt =====
-- src/config/iniHandler.cpp: the quotients that number the cells.
use multi_cctv_object_detect.Prelude.{ℕ, zero, suc, ◌+◌, ◌*◌, ◌/◌, ◌≤◌, ◌<◌, ◌≡◌, arith}
use native.Mathlib.Nat.{mul-le-mul_right, div-eq_of_lt-le}

-- A number between two multiples of `d`.
pub between : (d q x : ℕ) → d * q ≤ x → x < d * q + d → x / d ≡ q
between d q x low high = div-eq_of_lt-le d (grind arith) (grind arith)

-- A product of two numbers below two others.
pub index_below : (a b rows cols : ℕ) → a < cols → b < rows → b * cols + a < rows * cols
index_below a b rows cols small low =
    let step : (b + 1) * cols ≤ rows * cols = mul-le-mul_right cols (omega (arith, low)) in
    grind arith

-- One multiple more stays within `n` of them.
pub next_multiple : (d q n size : ℕ) → q < n → n * d ≤ size → d * q + d ≤ size
next_multiple d q n size h whole =
    let step : (q + 1) * d ≤ n * d = mul-le-mul_right d (omega (arith, h)) in grind arith

pub positive_factor : (a b x : ℕ) → x < a * b → 0 < a
positive_factor zero b x h = absurd (grind arith)
positive_factor (suc a) b x h = omega arith

pub swapped : (a b x : ℕ) → x < a * b → x < b * a
swapped a b x h = grind arith
