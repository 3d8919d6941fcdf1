-- ===== src/Routine/Ends.antt =====
-- src/main.cpp: the thread of a channel ends, and what it keeps until then.
use mathlib.Core.List.{Permᴰ}
use multi_cctv_object_detect.Prelude.{
  ℕ, ℤ, ◌*◌, ◌≤◌, Bool, true, false, not, ◌||◌, List, [], ◌∷◌, ◌++◌, map, ◌≡◌, refl, sym, ap, ◌∙◌,
  some, Bytes, All, length, Bool-cases, inl, inr, Result, ok, ◌>>=◌, >>=-eq-ok, ok-injective,
  append-nil, append_assoc,
}
use multi_cctv_object_detect.Inference.{BBoxInfo}
use multi_cctv_object_detect.Alarm.{DetectedHistoryItem}
use multi_cctv_object_detect.AlarmFile.Render.{Rule}
use multi_cctv_object_detect.Boot.Ready.{HasRules, turn-HasRules}
use multi_cctv_object_detect.Channel.{Image, no_frame, black_frame, detected, observe}
use multi_cctv_object_detect.Channel.Labels.{Doubles, Sizes}
use multi_cctv_object_detect.Channel.Recent.{
  turn-ObservedAs, items_of-cons, newest, observe_all-from, items_of,
}
use multi_cctv_object_detect.Channel.Shows.{show_turn-turn}
use multi_cctv_object_detect.Channel.WebFile.{classes_of}
use multi_cctv_object_detect.Camera.{OpenCv, Pictures, get_frame_api, look}
use multi_cctv_object_detect.DataSave.{regular_files}
use multi_cctv_object_detect.DataSave.Gather.{total_data_per_channel}
use multi_cctv_object_detect.DataSave.Oldest.{Sorted}
use multi_cctv_object_detect.DataSave.Stays.{Answers, gather-bound}
use multi_cctv_object_detect.Routine.{Round, Routine, found_turn, routine_turn, routine}

-- The classes that the network finds.
abbrev classes_in : {Mat F : Type 0} → (Mat → List (BBoxInfo F)) → Mat → List ℤ
classes_in network m = classes_of (network m)

module _ {Mat F : Type 0} (cv : OpenCv Mat) (network : Mat → List (BBoxInfo F))
    (width height : ℤ) where
  -- The images of the turns, in order, where no reply of the camera makes `cv::resize` throw.
  abbrev pub look_rounds : List Round → Pictures Mat → Result (List Image)
  look_rounds [] p = ok []
  look_rounds (r ∷ rounds) p = get_frame_api cv width height r.answer p >>= λ (status, p').
      look_rounds rounds p' >>= λ images.
      ok (look cv width height (classes_in network) r.still_running r.time p' ∷ images)

-- Nothing throws that a turn calls to write its files.
pub record Writes (r : Round) : Type 0 where
  pub folder_made : r.folder_made ≡ ok tt
  pub picture_written : r.picture_written ≡ ok tt
  pub answers : Answers r.gathering

module _ {Mat F D : Type 0} (cv : OpenCv Mat) (ops : Doubles D) (two_places : F → Bytes)
    (network : Mat → List (BBoxInfo F)) (sizes : Pictures Mat → Sizes)
    (sort : List (Bytes × ℕ) → List (Bytes × ℕ)) (throws : Bytes → Bool) (width height : ℤ)
    (frames_to_check : ℕ) (rules : List Rule)
    (perm : (files : List (Bytes × ℕ)) → Permᴰ (sort files) files)
    (sorted : (files : List (Bytes × ℕ)) → Sorted (sort files))
    (removable : (p : Bytes) → throws p ≡ false) where
  -- The frame passes the tests of the loop, or does not.
  found_turn-Keeps :
      (r : Round) (s : Routine Mat) (pictures : Pictures Mat)
      → HasRules rules r.manager
      → Writes r
      → length (regular_files s.folder) ≤ total_data_per_channel * 2
      → (s' : Routine Mat) × (found_turn cv ops two_places network sizes sort throws width height
            frames_to_check r s pictures
          ≡ ok s')
        × (s'.channel.detected_class_history
            ≡ (observe s.channel
                (detected r.time (classes_in network pictures.sub_frame))).detected_class_history)
        × (s'.pictures ≡ pictures)
        × (length (regular_files s'.folder) ≤ total_data_per_channel * 2)
  unfolding found_turn
  found_turn-Keeps r s pictures has_rules writes room =
      let (folder, gathered, room') =
        gather-bound sort throws perm sorted removable s.folder r.gathering writes.answers room in
      let image = detected r.time (classes_in network pictures.sub_frame) in
      let (c', m', w', e, _, _) =
        turn-HasRules rules frames_to_check s.channel r.manager r.world r.frame image has_rules in
      let (shown, files', e') =
        show_turn-turn ops two_places frames_to_check s.channel r.manager r.world r.frame r.time
          (network pictures.sub_frame) (sizes pictures) r.opens s.files c' m' w' e in
      let kept =
        turn-ObservedAs frames_to_check s.channel r.manager r.world r.frame r.time
          (classes_in network pictures.sub_frame) (c', m', w') e in
      (
        record { channel = c'; pictures = pictures; files = files'; folder = folder },
        rw (found_turn, e', writes.folder_made, writes.picture_written, gathered) refl,
        kept,
        refl,
        room',
      )

  routine_turn-Keeps :
      (r : Round) (s : Routine Mat) (status : ℤ) (p' : Pictures Mat)
      → get_frame_api cv width height r.answer s.pictures ≡ ok (status, p')
      → HasRules rules r.manager
      → Writes r
      → length (regular_files s.folder) ≤ total_data_per_channel * 2
      → (s' : Routine Mat) × (routine_turn cv ops two_places network sizes sort throws width height
            frames_to_check r s
          ≡ ok s')
        × (s'.channel.detected_class_history
            ≡ (observe s.channel (
                look cv width height
                  (classes_in network)
                  r.still_running
                  r.time
                  p')).detected_class_history)
        × (s'.pictures ≡ p')
        × (length (regular_files s'.folder) ≤ total_data_per_channel * 2)
  unfolding routine_turn look observe
  routine_turn-Keeps r s status p' answered has_rules writes room =
      elim (Bool-cases (cv.is_empty p'.frame || not r.still_running)) [
        | inl skips ↦ (
          record s { channel = observe s.channel no_frame; pictures = p' },
          rw (routine_turn, answered, skips) refl,
          rw (look, skips) refl,
          refl,
          room,
        )
        | inr goes_on ↦ elim (Bool-cases (cv.is_black p'.frame)) [
          | inl black ↦ (
            record s { channel = observe s.channel black_frame; pictures = p' },
            rw (routine_turn, answered, goes_on, black) refl,
            rw (look, goes_on, black) refl,
            refl,
            room,
          )
          | inr bright ↦
              let (s', e, history, pictures, room') =
                found_turn-Keeps r s p' has_rules writes room in
              (
                s',
                rw (routine_turn, answered, goes_on, bright) e,
                rw (look, goes_on, bright) history,
                pictures,
                room',
              )
        ]
      ]

  -- Where the readings of `g_running` at the loop's test are true for the turns `before` and then false,
  -- the manager has the well-formed rules loaded at each turn, with `not` in front of class numbers only
  -- and each with its context, no reply of the camera makes `cv::resize` throw, `std::sort` gives the
  -- files in the order of their times, and nothing throws that writes or removes files: the thread of a channel ends, and without a
  -- fault. If its history held the last 199 of the frames seen before, it then holds the last 199 of these
  -- and of those that passed the loop's tests; and a folder of at most 19998 files still has at most as many.
  pub routine-Ends :
      (before : List Round) (last : Round) (rest : List (Bool × Round)) (s : Routine Mat)
      (seen : List DetectedHistoryItem) (images : List Image)
      → look_rounds cv network width height before s.pictures ≡ ok images
      → All (λ r. HasRules rules r.manager) before
      → All Writes before
      → s.channel.detected_class_history ≡ newest 199 seen
      → length (regular_files s.folder) ≤ total_data_per_channel * 2
      → (s' : Routine Mat) × (routine cv ops two_places network sizes sort throws width height
            frames_to_check
            (map (λ r. (true, r)) before ++ (false, last) ∷ rest)
            s
          ≡ ok (some s'))
        × (s'.channel.detected_class_history ≡ newest 199 (seen ++ items_of images))
        × (length (regular_files s'.folder) ≤ total_data_per_channel * 2)
  unfolding routine
  routine-Ends [] last rest s seen images looked has_rules all_write kept room = (
    s,
    refl,
    kept
        ∙ ap (newest 199) (
            sym (append-nil seen)
            ∙ ap (λ (xs : List Image). seen ++ items_of xs) (ok-injective [] images looked)),
    room,
  )
  routine-Ends (r ∷ before) last rest s seen images looked (h, has_rules) (writes, all_write) kept
        room =
      let ((status, p'), answered, later) =
        >>=-eq-ok (get_frame_api cv width height r.answer s.pictures)
          (λ (status, p'). look_rounds cv network width height before p' >>= λ images'.
            ok (look cv width height (classes_in network) r.still_running r.time p' ∷ images'))
          looked in
      let (images', looked', together) =
        >>=-eq-ok (look_rounds cv network width height before p')
          (λ images'.
            ok (look cv width height (classes_in network) r.still_running r.time p' ∷ images'))
          later in
      let image = look cv width height (classes_in network) r.still_running r.time p' in
      let (s₁, e₁, history, pictures, room₁) =
        routine_turn-Keeps r s status p' answered h writes room in
      let kept₁ : s₁.channel.detected_class_history ≡ newest 199 (seen ++ items_of (image ∷ [])) =
        history ∙ observe_all-from s.channel (image ∷ []) seen kept in
      let (s₂, e₂, history₂, room₂) =
        routine-Ends before last rest s₁ (seen ++ items_of (image ∷ [])) images'
          (ap (look_rounds cv network width height before) pictures ∙ looked') has_rules all_write
          kept₁ room₁ in
      (
        s₂,
        rw e₁ e₂,
        history₂
            ∙ ap (newest 199) (
                append_assoc seen (items_of (image ∷ [])) (items_of images')
                ∙ ap (λ (xs : List DetectedHistoryItem). seen ++ xs)
                    (items_of-cons image images'
                      ∙ ap items_of (ok-injective (image ∷ images') images together))),
        room₂,
      )
