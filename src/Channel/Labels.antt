-- ===== src/Channel/Labels.antt =====
-- src/main.cpp: what a turn of `routine` makes of the objects that were found: the lines of the two
-- label files, and what is drawn into the picture.
-- `double` is a type with its operations as an argument. `int` is not bounded here: the places in a
-- picture are far from the bounds.
use multi_cctv_object_detect.Prelude.{
  ℤ, pos, ◌+ℤ◌, ◌-ℤ◌, ◌<ℤ◌, Bool, List, [], ◌∷◌, ◌++◌, Bytes, codes, to_string, if◌then◌else◌,
}
use multi_cctv_object_detect.Inference.{Rect, BBoxInfo}

-- The operations of `double`, with the two ways in which the streams print one: by default, and with
-- `std::fixed` and `setprecision(6)`.
pub record Doubles (D : Type 0) : Type 0 where
  pub of_int : ℤ → D
  pub plus : D → D → D
  pub times : D → D → D
  pub over : D → D → D
  pub two : D
  pub general : D → Bytes
  pub fixed_6 : D → Bytes

-- The sizes of `frame` and `sub_frame`.
pub record Sizes : Type 0 where
  pub cols : ℤ
  pub rows : ℤ
  pub sub_cols : ℤ
  pub sub_rows : ℤ

pub record YoloBox (D : Type 0) : Type 0 where
  pub center_x : D
  pub center_y : D
  pub normalized_width : D
  pub normalized_height : D

module _ {D : Type 0} (ops : Doubles D) where
  -- A box of `sub_frame`, scaled to `frame` and then to the size 1.
  unfoldable pub yolo_box : Sizes → Rect → YoloBox D
  yolo_box s box =
      let scale_x : D = ops.over (ops.of_int s.cols) (ops.of_int s.sub_cols) in
      let scale_y : D = ops.over (ops.of_int s.rows) (ops.of_int s.sub_rows) in
      let scaled_box_x : D = ops.times (ops.of_int box.left) scale_x in
      let scaled_box_y : D = ops.times (ops.of_int box.top) scale_y in
      let scaled_box_width : D = ops.times (ops.of_int box.width) scale_x in
      let scaled_box_height : D = ops.times (ops.of_int box.height) scale_y in
      record {
        center_x =
            ops.over (ops.plus scaled_box_x (ops.over scaled_box_width ops.two))
              (ops.of_int s.cols);
        center_y =
            ops.over (ops.plus scaled_box_y (ops.over scaled_box_height ops.two))
              (ops.of_int s.rows);
        normalized_width = ops.over scaled_box_width (ops.of_int s.cols);
        normalized_height = ops.over scaled_box_height (ops.of_int s.rows);
      }

-- `<< a << " " << b ... << std::endl` for the class and the four numbers.
abbrev pub line_of : {D : Type 0} → (D → Bytes) → ℤ → YoloBox D → Bytes
line_of print class_id b =
    to_string class_id
    ++ b' '
      ∷ (print b.center_x
          ++ b' '
            ∷ (print b.center_y
                ++ b' '
                  ∷ (print b.normalized_width ++ b' ' ∷ (print b.normalized_height ++ 10 ∷ []))))

module _ {F D : Type 0} (ops : Doubles D) (s : Sizes) where
  -- What `net_result` holds after the turn's objects.
  unfoldable pub net_result : List (BBoxInfo F) → Bytes
  unfolding yolo_box
  net_result [] = []
  net_result (det ∷ results) =
      line_of ops.general det.class_id (yolo_box ops s det.box) ++ net_result results

  -- What is written to `net_res`.
  unfoldable pub net_res : Bool → List (BBoxInfo F) → Bytes
  unfolding yolo_box
  net_res is_alarm [] = []
  net_res is_alarm (det ∷ results) =
      (if is_alarm then b'1' else b'0')
      ∷ b' '
      ∷ (line_of ops.fixed_6 det.class_id (yolo_box ops s det.box) ++ net_res is_alarm results)

-- The vertical place of a label: above its box, or below where there is no room above.
unfoldable pub text_y : Rect → ℤ
text_y box =
    if box.top -ℤ pos 10 <ℤ pos 20
    then box.top +ℤ box.height +ℤ pos 20 -ℤ pos 5
    else box.top -ℤ pos 10

pub data Color : Type 0 where
  red green : Color

-- The calls of `cv::rectangle` and `cv::putText`, with what varies.
pub data Drawing : Type 0 where
  rectangle : Rect → Color → Drawing
  put_text : Bytes → ℤ → ℤ → Color → Drawing

abbrev color_anchor : Bool → Color
color_anchor channel_is_active = if channel_is_active then red else green

-- `two_places` is `cv::format("%.2f", ...)`.
unfoldable pub drawings : {F : Type 0} → (F → Bytes) → Bool → List (BBoxInfo F) → List Drawing
unfolding text_y
drawings two_places channel_is_active [] = []
drawings two_places channel_is_active (det ∷ results) =
    rectangle det.box (color_anchor channel_is_active)
    ∷ put_text (det.class_name ++ codes ": " ++ two_places det.confidence) det.box.left
        (text_y det.box) (color_anchor channel_is_active)
    ∷ drawings two_places channel_is_active results
