-- ===== src/Inference.antt =====
-- src/inference/inference.cpp: from the network's output to the detected objects.
-- `float` is a type with its operations as an argument. The network with its input, `minMaxLoc` and
-- `NMSBoxes` of OpenCV are arguments too: the output is a list of rows.
pub mod Valid
use multi_cctv_object_detect.Prelude.{
  ℕ, ℤ, pos, Bool, List, [], ◌∷◌, ◌++◌, Bytes, codes, get_elem?, if◌then◌else◌, Result, ok,
  or_undefined, ◌>>=◌,
}

-- The operations of `float` that the source uses, and its constants 0.5f, 0.4f and 0.5f.
pub record Floats (F : Type 0) : Type 0 where
  pub greater : F → F → Bool
  pub minus : F → F → F
  pub times : F → F → F
  pub over : F → F → F
  pub of_int : ℕ → F
  pub to_int : F → ℤ
  pub half : F
  pub confidence_threshold : F
  pub nms_threshold : F

-- `cv::Rect`
pub record Rect : Type 0 where
  pub left : ℤ
  pub top : ℤ
  pub width : ℤ
  pub height : ℤ

-- A row of the transposed output: `data[0]` to `data[3]`, and the scores from `data + 4` on, one for
-- each class name.
pub record Row (F : Type 0) : Type 0 where
  pub x : F
  pub y : F
  pub w : F
  pub h : F
  pub scores : List F

pub record BBoxInfo (F : Type 0) : Type 0 where
  pub box : Rect
  pub class_name : Bytes
  pub class_id : ℤ
  pub confidence : F

-- The vectors that the loop fills.
pub record Candidates (F : Type 0) : Type 0 where
  pub class_ids : List ℕ
  pub confidences : List F
  pub boxes : List Rect

abbrev pub class_names : List Bytes
class_names =
    codes "standing"
    ∷ codes "lying down on bed"
    ∷ codes "sitting on bed"
    ∷ codes "fallen down"
    ∷ codes "wheel chair"
    ∷ codes "unknown status"
    ∷ codes "sitting on chair"
    ∷ codes "sitting on the floor"
    ∷ codes "food tray"
    ∷ codes "perch on bed"
    ∷ codes "staff"
    ∷ codes "Standing on bed"
    ∷ codes "jump over"
    ∷ []

abbrev pub no_candidates : {F : Type 0} → Candidates F
no_candidates = record { class_ids = []; confidences = []; boxes = [] }

module _ {F : Type 0} (ops : Floats F) (cols rows : ℕ) where
  abbrev scale_x : F
  scale_x = ops.over (ops.of_int cols) (ops.of_int 384)

  abbrev scale_y : F
  scale_y = ops.over (ops.of_int rows) (ops.of_int 224)

  -- The box of a row in the image of size `cols` times `rows`.
  abbrev pub box_of : Row F → Rect
  box_of r = record {
    left = ops.to_int (ops.times (ops.minus r.x (ops.times ops.half r.w)) scale_x);
    top = ops.to_int (ops.times (ops.minus r.y (ops.times ops.half r.h)) scale_y);
    width = ops.to_int (ops.times r.w scale_x);
    height = ops.to_int (ops.times r.h scale_y);
  }

  -- One round of the loop over the rows; `max_loc` gives the greatest score and its place.
  unfoldable pub keep_row : (List F → F × ℕ) → Row F → Candidates F → Candidates F
  keep_row max_loc r c =
      let (score, place) = max_loc r.scores in
      if ops.greater score ops.confidence_threshold
      then record {
        class_ids = c.class_ids ++ place ∷ [];
        confidences = c.confidences ++ score ∷ [];
        boxes = c.boxes ++ box_of r ∷ [];
      }
      else c

  unfoldable pub keep_rows : (List F → F × ℕ) → List (Row F) → Candidates F → Candidates F
  keep_rows max_loc [] c = c
  keep_rows max_loc (r ∷ output) c = keep_rows max_loc output (keep_row max_loc r c)

module _ {F : Type 0} where
  -- The object at an index; the source tests no index.
  unfoldable pub object_at : Candidates F → ℕ → Result (BBoxInfo F)
  object_at c idx = do
    box ← or_undefined (get_elem? c.boxes idx)
    class_id ← or_undefined (get_elem? c.class_ids idx)
    class_name ← or_undefined (get_elem? class_names class_id)
    confidence ← or_undefined (get_elem? c.confidences idx)
    ok (record {
      box = box;
      class_name = class_name;
      class_id = pos class_id;
      confidence = confidence;
    })

  unfoldable pub collect : Candidates F → List ℕ → Result (List (BBoxInfo F))
  collect c [] = ok []
  collect c (idx ∷ indices) = do
    info ← object_at c idx
    detected_objects ← collect c indices
    ok (info ∷ detected_objects)

  -- `nms` is `NMSBoxes` with the two thresholds.
  unfoldable pub inference :
      Floats F
      → (List F → F × ℕ)
      → (List Rect → List F → List ℕ)
      → ℕ
      → ℕ
      → List (Row F)
      → Result (List (BBoxInfo F))
  inference ops max_loc nms cols rows output =
      let c = keep_rows ops cols rows max_loc output no_candidates in
      collect c (nms c.boxes c.confidences)
