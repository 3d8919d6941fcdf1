-- ===== src/Tests/Cameras.antt =====
-- A camera without hardware acceleration that is reached twice, and then no more. A frame is a number.
use multi_cctv_object_detect.Prelude.{
  ℕ, pos, true, false, Bool, List, [], ◌∷◌, ◌≡◌, refl, codes, Option, none, some, arith,
}
use multi_cctv_object_detect.ThreadSafe.{new_stack}
use multi_cctv_object_detect.Camera.Capture.{
  VideoCapture, connected, connect_rtsp, start_image_capture,
}
use multi_cctv_object_detect.Camera.Latest.{Serves, start_image_capture-newest}

-- What later connections will give, and what the open one has still to give.
abbrev Link : Type 0
Link = List (List ℕ) × Option (List ℕ)

abbrev open_link : Link → Bool × Link
open_link ([], current) = (false, ([], none))
open_link (frames ∷ later, current) = (true, (later, some frames))

abbrev link_is_opened : Link → Bool
link_is_opened (later, none) = false
link_is_opened (later, some frames) = true

abbrev read_link : Link → Option ℕ × Link
read_link (later, none) = (none, (later, none))
read_link (later, some []) = (none, (later, some []))
read_link (later, some (frame ∷ frames)) = (some frame, (later, some frames))

abbrev link_cv : VideoCapture Link ℕ
link_cv = record {
  open_accelerated = λ url c. (false, c);
  open_plain = λ url c. open_link c;
  is_opened = link_is_opened;
  read = read_link;
  release = λ c. (c.0, none);
}

start_image_capture-newest_example :
    (last : Link) × (start_image_capture link_cv 5 (record {
      rtsp_url = codes "rtsp://camera";
      image_stack = new_stack (pos 2);
      vicap = ((5 ∷ 6 ∷ []) ∷ (7 ∷ []) ∷ [], none);
    })
      ≡ some (
        pos 1,
        record {
          rtsp_url = codes "rtsp://camera";
          image_stack = record { data_container_ = 7 ∷ 6 ∷ []; stack_max_size = pos 2 };
          vicap = last;
        },
      ))
    × (link_is_opened last ≡ false)
unfolding Serves connected connect_rtsp
start_image_capture-newest_example =
    start_image_capture-newest link_cv (codes "rtsp://camera") 1
      ((5 ∷ 6 ∷ []) ∷ (7 ∷ []) ∷ [], none) ((5 ∷ 6 ∷ []) ∷ (7 ∷ []) ∷ []) 5
      (
        refl,
        ((7 ∷ []) ∷ [], some []),
        (((7 ∷ []) ∷ [], some (6 ∷ [])), refl, (((7 ∷ []) ∷ [], some []), refl, refl)),
        (refl, ([], some []), (([], some []), refl, refl), refl),
      )
      (omega arith)
