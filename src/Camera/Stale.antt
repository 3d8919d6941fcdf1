-- ===== src/Camera/Stale.antt =====
-- src/cctv/getFrame.cpp with src/main.cpp: a camera that does not answer.
use multi_cctv_object_detect.Prelude.{
  ℕ, ℤ, false, List, [], ◌∷◌, ◌++◌, ◌≡◌, refl, ap, ◌∙◌, Option, none, Bytes, ok,
}
use multi_cctv_object_detect.Channel.{CameraChannel, Image, detected, history_item}
use multi_cctv_object_detect.Channel.Recent.{newest, observe_all, observe_all-from, items_of}
use multi_cctv_object_detect.Alarm.{DetectedHistoryItem}
use multi_cctv_object_detect.Camera.{OpenCv, Pictures, get_frame_api, look, look_all}

abbrev pub no_answers : List ℕ → List (Option Bytes × ℕ)
no_answers [] = []
no_answers (time ∷ times) = (none, time) ∷ no_answers times

-- What one picture gives at each time.
abbrev pub same_classes : List ℤ → List ℕ → List DetectedHistoryItem
same_classes classes [] = []
same_classes classes (time ∷ times) = history_item time classes ∷ same_classes classes times

module _ {Mat : Type 0} (cv : OpenCv Mat) (width height : ℤ) (network : Mat → List ℤ) where
  abbrev black_classes : List ℤ
  black_classes = network (cv.zeros height width)

  look_all-none :
      (p : Pictures Mat) (times : List ℕ)
      → cv.is_empty p.frame ≡ false
      → cv.is_black p.frame ≡ false
      → (images : List Image) × (p' : Pictures Mat) × (look_all cv width height network
            (no_answers times)
            p
          ≡ ok (images, p'))
        × (p'.frame ≡ p.frame)
        × (items_of images ≡ same_classes black_classes times)
  unfolding look_all look get_frame_api
  look_all-none p [] full bright = ([], p, refl, refl, refl)
  look_all-none p (time ∷ times) full bright =
      let p₁ = record p { sub_frame = cv.zeros height width } in
      let (images, p₂, e, kept, items) = look_all-none p₁ times full bright in
      (
        detected time black_classes ∷ images,
        p₂,
        rw (e, full, bright),
        kept,
        ap (λ (xs : List DetectedHistoryItem). history_item time black_classes ∷ xs) items,
      )

  -- Let a channel's loop have a picture that is neither empty nor black, and its history hold the last
  -- 199 of the frames that reached the network. While its camera then does not answer, whatever the
  -- number of turns, `frame` stays that picture, so that each turn passes the loop's two tests, and the
  -- network is run on the black picture in `sub_frame`: its classes enter the history, once for each turn.
  pub no_answers-Stale :
      (p : Pictures Mat) (times : List ℕ) (c : CameraChannel) (seen : List DetectedHistoryItem)
      → cv.is_empty p.frame ≡ false
      → cv.is_black p.frame ≡ false
      → c.detected_class_history ≡ newest 199 seen
      → (images : List Image) × (p' : Pictures Mat) × (look_all cv width height network
            (no_answers times)
            p
          ≡ ok (images, p'))
        × (p'.frame ≡ p.frame)
        × ((observe_all c images).detected_class_history
            ≡ newest 199 (seen ++ same_classes (network (cv.zeros height width)) times))
  no_answers-Stale p times c seen full bright kept =
      let (images, p', e, same, items) = look_all-none p times full bright in
      (
        images,
        p',
        e,
        same,
        observe_all-from c images seen kept
            ∙ ap (λ (xs : List DetectedHistoryItem). newest 199 (seen ++ xs)) items,
      )
