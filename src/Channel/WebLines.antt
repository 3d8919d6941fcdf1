-- ===== src/Channel/WebLines.antt =====
-- src/main.cpp: the lines of the file that the web page reads.
use multi_cctv_object_detect.Prelude.{
  Bool, List, [], ◌∷◌, ◌++◌, map, ◌≡◌, refl, append_assoc, Bytes, to_string, if◌then◌else◌,
}
use multi_cctv_object_detect.Inference.{BBoxInfo}
use multi_cctv_object_detect.Handler.Split.{unlines}
use multi_cctv_object_detect.Channel.Labels.{Doubles, Sizes, yolo_box, net_res}

-- The class of an object and the four numbers of its box, with blanks between them.
abbrev pub object_text : {F D : Type 0} → Doubles D → Sizes → BBoxInfo F → Bytes
object_text ops s det =
    let b = yolo_box ops s det.box in
    to_string det.class_id
    ++ b' '
      ∷ (ops.fixed_6 b.center_x
          ++ b' '
            ∷ (ops.fixed_6 b.center_y
                ++ b' '
                  ∷ (ops.fixed_6 b.normalized_width ++ b' ' ∷ ops.fixed_6 b.normalized_height)))

pub net_res-unlines :
    {F D : Type 0} (ops : Doubles D) (s : Sizes) (is_alarm : Bool) (results : List (BBoxInfo F))
    → net_res ops s is_alarm results
      ≡ unlines
          (map (λ det. (if is_alarm then b'1' else b'0') ∷ b' ' ∷ object_text ops s det) results)
unfolding net_res
net_res-unlines ops s is_alarm [] = refl
net_res-unlines ops s is_alarm (det ∷ results) =
    let rest = net_res-unlines ops s is_alarm results in simp (append_assoc, rest)
