-- ===== src/Channel/Recent.antt =====
-- src/main.cpp: the history that a channel keeps.
use multi_cctv_object_detect.Prelude.{
  ℕ, zero, suc, ℤ, ◌+◌, ◌-◌, ◌≤◌, ◌<◌, true, false, List, [], ◌∷◌, ◌++◌, append-nil, append_assoc,
  ◌≡◌, inl, inr, refl, sym, ap, ◌∙◌, Bytes, arith, length, length-append, length-drop, drop, leb,
  Bool-cases, subst, Result, err, ok, >>=-eq-ok,
}
use multi_cctv_object_detect.Alarm.{DetectedHistoryItem}
use multi_cctv_object_detect.Channel.{
  CameraChannel, Image, no_frame, black_frame, detected, bound_history, history_item, new_channel,
  observe, Turn, turn, frame_of,
}
use multi_cctv_object_detect.AlarmManager.{AlarmManager, World, Frame, process_channel_alarms}

abbrev pub observe_all : CameraChannel → List Image → CameraChannel
observe_all c [] = c
observe_all c (image ∷ images) = observe_all (observe c image) images

-- The items of the frames that reached the network, oldest first.
abbrev pub items_of : List Image → List DetectedHistoryItem
items_of [] = []
items_of (no_frame ∷ images) = items_of images
items_of (black_frame ∷ images) = items_of images
items_of (detected time classes ∷ images) = history_item time classes ∷ items_of images

-- The last `n` items.
abbrev pub newest : ℕ → List DetectedHistoryItem → List DetectedHistoryItem
newest n xs = drop (length xs - n) xs

drop-append :
    (n : ℕ) (xs ys : List DetectedHistoryItem) → n ≤ length xs → drop n (xs ++ ys) ≡ drop n xs ++ ys
drop-append zero xs ys h = refl
drop-append (suc n) [] ys h = absurd (omega (arith, h))
drop-append (suc n) (x ∷ xs) ys h = drop-append n xs ys (omega (arith, h))

drop-drop : (n : ℕ) (xs : List DetectedHistoryItem) → drop 1 (drop n xs) ≡ drop (suc n) xs
drop-drop zero [] = refl
drop-drop zero (x ∷ xs) = refl
drop-drop (suc n) [] = refl
drop-drop (suc n) (x ∷ xs) = drop-drop n xs

bound_history-full :
    (xs : List DetectedHistoryItem) → 200 ≤ length xs → bound_history xs ≡ drop 1 xs
bound_history-full [] h = absurd (omega (arith, h))
bound_history-full (x ∷ xs) h =
    let full : leb 200 (length (x ∷ xs)) ≡ true = ground arith in rw full

bound_history-room : (xs : List DetectedHistoryItem) → length xs < 200 → bound_history xs ≡ xs
bound_history-room [] h = refl
bound_history-room (x ∷ xs) h =
    let room : leb 200 (length (x ∷ xs)) ≡ false = ground arith in rw room

pub newest-push :
    (xs : List DetectedHistoryItem) (x : DetectedHistoryItem)
    → bound_history (newest 199 xs ++ x ∷ []) ≡ newest 199 (xs ++ x ∷ [])
newest-push xs x =
    let ys = xs ++ x ∷ [] in
    let n = length xs - 199 in
    let more : length ys ≡ length xs + 1 = length-append xs (x ∷ []) in
    let e : newest 199 xs ++ x ∷ [] ≡ drop n ys = sym (drop-append n xs (x ∷ []) (omega arith)) in
    elim (Bool-cases (leb 199 (length xs))) [
      | inl full ↦
          let long : 200 ≤ length (drop n ys) = ground (arith, length-drop n ys, more) in
          let next : suc n ≡ length ys - 199 = ground (arith, more) in
          ap bound_history e
          ∙ (bound_history-full (drop n ys) long ∙ (drop-drop n ys ∙ ap (λ k. drop k ys) next))
      | inr room ↦
          let short : length (drop n ys) < 200 = ground (arith, length-drop n ys, more) in
          let next : n ≡ length ys - 199 = ground (arith, more) in
          ap bound_history e ∙ (bound_history-room (drop n ys) short ∙ ap (λ k. drop k ys) next)
    ]

pub observe_all-from :
    (c : CameraChannel) (images : List Image) (seen : List DetectedHistoryItem)
    → c.detected_class_history ≡ newest 199 seen
    → (observe_all c images).detected_class_history ≡ newest 199 (seen ++ items_of images)
unfolding observe
observe_all-from c [] seen h = rw append-nil h
observe_all-from c (no_frame ∷ images) seen h = observe_all-from (observe c no_frame) images seen h
observe_all-from c (black_frame ∷ images) seen h =
    observe_all-from (observe c black_frame) images seen h
observe_all-from c (detected time classes ∷ images) seen h =
    let x = history_item time classes in
    let e : (observe c (detected time classes)).detected_class_history
        ≡ newest 199 (seen ++ x ∷ []) =
      ap (λ (t : List DetectedHistoryItem). bound_history (t ++ x ∷ [])) h ∙ newest-push seen x in
    observe_all-from (observe c (detected time classes)) images (seen ++ x ∷ []) e
    ∙ ap (newest 199) (append_assoc seen (x ∷ []) (items_of images))

-- After any turns of a channel's loop its history holds, oldest first, the last 199 of the frames
-- that reached the network, or all of them where they are fewer.
observe_all-newest :
    (n number : ℤ) (description destination : Bytes) (images : List Image)
    → (observe_all (new_channel n number description destination) images).detected_class_history
      ≡ newest 199 (items_of images)
observe_all-newest n number description destination images =
    observe_all-from (new_channel n number description destination) images [] refl

-- A turn keeps of the channel what it has observed.
abbrev ObservedAs : CameraChannel → Result Turn → Type 0
ObservedAs c (err fault) = Unit {0}
ObservedAs c (ok (c', m', w')) = c'.detected_class_history ≡ c.detected_class_history

pub turn-ObservedAs :
    (k : ℕ) (c : CameraChannel) (m : AlarmManager) (w : World) (f : Frame) (time : ℕ)
    (classes : List ℤ) (t : Turn)
    → turn k c m w f (detected time classes) ≡ ok t
    → ObservedAs (observe c (detected time classes)) (ok t)
unfolding turn
turn-ObservedAs k c m w f time classes t e =
    let c₁ = observe c (detected time classes) in
    let ((r, m₁, w₁), called, ended) =
      >>=-eq-ok (process_channel_alarms k m w (frame_of c₁ f))
        (λ (r, m', w'). ok (record c₁ { alarm_result = r }, m', w')) e in
    subst (ObservedAs c₁) ended refl

pub items_of-cons :
    (image : Image) (images : List Image)
    → items_of (image ∷ []) ++ items_of images ≡ items_of (image ∷ images)
items_of-cons no_frame images = refl
items_of-cons black_frame images = refl
items_of-cons (detected time classes) images = refl
