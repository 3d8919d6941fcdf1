-- ===== src/Channel/Placed.antt =====
-- src/main.cpp: where the label of a box stands in the picture.
use multi_cctv_object_detect.Prelude.{
  ℕ, pos, ◌+◌, ◌-◌, ◌≤◌, ◌<◌, ◌≡◌, ◌⊎◌, ◌↔◌, Bool-cases, inl, inr, ltb, arith, refl,
}
use multi_cctv_object_detect.Inference.{Rect}
use multi_cctv_object_detect.Channel.Labels.{text_y}

-- A box in a picture of `rows` rows.
pub record InRows (box : Rect) (rows top height : ℕ) : Type 0 where
  pub at_top : box.top ≡ pos top
  pub high : box.height ≡ pos height
  pub within : top + height ≤ rows

-- The line that the label of a box in the picture stands on is 10 above the box or 15 below it, and at
-- least 15 below the top of the picture. It lies in the picture unless the box begins less
-- than 30 from the top of the picture and ends less than 15 from its bottom; then it lies below the
-- picture.
pub text_y-Placed :
    (box : Rect) (rows top height : ℕ)
    → InRows box rows top height
    → (y : ℕ) × (text_y box ≡ pos y)
      × (15 ≤ y)
      × ((y + 10 ≡ top) ⊎ (y ≡ top + height + 15))
      × ((rows < y) ↔ ((top < 30) × (rows < top + height + 15)))
unfolding text_y
text_y-Placed box rows top height h = elim (Bool-cases (ltb top 30)) [
  | inl near ↦
      (top + height + 15, rw (h.at_top, h.high) (ground arith), omega arith, inr refl, ground arith)
  | inr far ↦ (
    top - 10,
    rw (h.at_top, h.high) (ground arith),
    ground arith,
    inl (ground arith),
    ground (arith, h.within),
  )
]
