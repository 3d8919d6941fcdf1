-- ===== src/Tests/Pictures.antt =====
-- A camera that stops answering after one picture. A picture is its bytes, black where all are 0.
use multi_cctv_object_detect.Prelude.{
  ℤ, pos, true, false, Bool, List, [], ◌∷◌, ◌++◌, ◌&&◌, ◌==◌, ◌≡◌, refl, codes, ok, Bytes,
}
use multi_cctv_object_detect.Channel.{CameraChannel, Image, new_channel}
use multi_cctv_object_detect.Channel.Recent.{newest, observe_all}
use multi_cctv_object_detect.Camera.{OpenCv, Pictures, look_all}
use multi_cctv_object_detect.Camera.Stale.{no_answers, same_classes, no_answers-Stale}

abbrev no_bytes : Bytes → Bool
no_bytes [] = true
no_bytes (b ∷ bytes) = false

abbrev all_zero : Bytes → Bool
all_zero [] = true
all_zero (b ∷ bytes) = b == 0 && all_zero bytes

abbrev pub bytes_cv : OpenCv Bytes
bytes_cv = record {
  is_empty = no_bytes;
  is_black = all_zero;
  zeros = λ height width. 0 ∷ 0 ∷ [];
  imdecode = λ body. body;
  resize = λ m width height. ok m;
}

-- A network that finds class 3 in any picture.
abbrev network : Bytes → List ℤ
network m = pos 3 ∷ []

abbrev pictures : Pictures Bytes
pictures = record { frame = 7 ∷ []; sub_frame = 7 ∷ [] }

abbrev channel : CameraChannel
channel = new_channel (pos 1) (pos 101) (codes "1") (codes "bed")

no_answers-Stale_example :
    (images : List Image) × (p : Pictures Bytes) × (look_all bytes_cv
        (pos 2)
        (pos 1)
        network
        (no_answers (8 ∷ 9 ∷ []))
        pictures
      ≡ ok (images, p))
    × (p.frame ≡ 7 ∷ [])
    × ((observe_all channel images).detected_class_history
        ≡ newest 199 ([] ++ same_classes (pos 3 ∷ []) (8 ∷ 9 ∷ [])))
no_answers-Stale_example =
    no_answers-Stale bytes_cv (pos 2) (pos 1) network pictures (8 ∷ 9 ∷ []) channel [] refl refl
      refl
