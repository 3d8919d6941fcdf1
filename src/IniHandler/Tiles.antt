-- ===== src/IniHandler/Tiles.antt =====
-- src/config/iniHandler.cpp: the cells tile the window.
use multi_cctv_object_detect.Prelude.{
  ℕ, pos, pos_part, ◌+◌, ◌*◌, ◌/◌, ◌%◌, ◌≤◌, ◌<◌, List, ◌≡◌, some, codes, get_elem?, ok,
}
use multi_cctv_object_detect.Inference.{Rect}
use multi_cctv_object_detect.IniHandler.{Settings, int_at, roi_cells}

abbrev rect : ℕ → ℕ → ℕ → ℕ → Rect
rect left top width height = record {
  left = pos left;
  top = pos top;
  width = pos width;
  height = pos height;
}

-- The pixel lies in the rectangle.
abbrev Holds : Rect → ℕ → ℕ → Type 0
Holds c x y =
    (pos_part c.left ≤ x)
    × (x < pos_part c.left + pos_part c.width)
    × (pos_part c.top ≤ y)
    × (y < pos_part c.top + pos_part c.height)

-- The pixel lies in the cell with this number.
abbrev Covers : List Rect → ℕ → ℕ → ℕ → Type 0
Covers cells i x y = (c : Rect) × (get_elem? cells i ≡ some c) × Holds c x y

-- The rectangle lies in a window of this size.
abbrev pub IsInside : ℕ → ℕ → Rect → Type 0
IsInside width height c =
    (l : ℕ) × (t : ℕ) × (w : ℕ) × (h : ℕ) × (c ≡ rect l t w h) × (l + w ≤ width) × (t + h ≤ height)

module _ (cw ch cols : ℕ) where
  abbrev cell : ℕ → Rect
  cell i = rect (cw * (i % cols)) (ch * (i / cols)) cw ch

-- What the settings say of the window.
pub record Window (ini : Settings) (rows cols width height : ℕ) : Type 0 where
  pub row_read : int_at ini (codes "window_row") ≡ ok (pos rows)
  pub col_read : int_at ini (codes "window_col") ≡ ok (pos cols)
  pub width_read : int_at ini (codes "window_width") ≡ ok (pos width)
  pub height_read : int_at ini (codes "window_height") ≡ ok (pos height)

-- The cells that `configurate_roi_with_ini` adds for a window.
abbrev cells_of : ℕ → ℕ → ℕ → ℕ → List Rect
cells_of rows cols width height =
    roi_cells (pos (width / cols)) (pos (height / rows)) (pos cols) (rows * cols) 0

-- Some cell has the pixel, and no other.
abbrev pub CoversOnce : List Rect → ℕ → ℕ → Type 0
CoversOnce cells x y = (i : ℕ) × Covers cells i x y × ((j : ℕ) → Covers cells j x y → j ≡ i)
