-- ===== src/Tests/Objects.antt =====
-- `inference` with whole numbers for `float`, on an output of two rows.
use multi_cctv_object_detect.Prelude.{
  ℕ, pos, ◌-◌, ◌*◌, ◌<◌, List, [], ◌∷◌, ◌≡◌, arith, ltb, length, All, ok,
}
use multi_cctv_object_detect.Inference.{Floats, Rect, Row, BBoxInfo, inference}
use multi_cctv_object_detect.Inference.Valid.{IsObject, kept_indices, inference-IsObject}

abbrev whole : Floats ℕ
whole = record {
  greater = λ a b. ltb b a;
  minus = λ a b. a - b;
  times = λ a b. a * b;
  over = λ a b. a;
  of_int = λ n. n;
  to_int = λ n. pos n;
  half = 1;
  confidence_threshold = 40;
  nms_threshold = 50;
}

abbrev max_loc : List ℕ → ℕ × ℕ
max_loc [] = (0, 0)
max_loc (s ∷ scores) = (s, 0)

max_loc-lt : (scores : List ℕ) → (max_loc scores).1 < 13
max_loc-lt [] = omega arith
max_loc-lt (s ∷ scores) = omega arith

abbrev first_box : List Rect → List ℕ → List ℕ
first_box [] confidences = []
first_box (b ∷ boxes) confidences = 0 ∷ []

first_box-All :
    (boxes : List Rect) (confidences : List ℕ)
    → All (λ i. i < length boxes) (first_box boxes confidences)
first_box-All [] confidences = tt
first_box-All (b ∷ boxes) confidences = (omega arith, tt)

abbrev output : List (Row ℕ)
output =
    record { x = 9; y = 8; w = 4; h = 4; scores = 70 ∷ 20 ∷ [] }
    ∷ record { x = 1; y = 1; w = 2; h = 2; scores = 30 ∷ [] }
    ∷ []

inference-IsObject_example :
    (objects : List (BBoxInfo ℕ)) × (inference whole max_loc first_box 1920 1080 output
      ≡ ok objects)
    × (length objects ≡ length (kept_indices whole max_loc first_box 1920 1080 output))
    × All (IsObject whole) objects
inference-IsObject_example =
    inference-IsObject whole max_loc first_box 1920 1080 output (λ r. max_loc-lt r.scores)
      first_box-All
