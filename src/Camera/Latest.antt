-- ===== src/Camera/Latest.antt =====
-- src/cctv/cctv.cpp with include/thread_safe/thread_safe_stack.h: the capture of a camera that in the end
-- is not reached any more.
use mathlib.Core.List.{reverse, reverse_aux}
use multi_cctv_object_detect.Prelude.{
  ℕ, zero, suc, ◌+◌, ◌≤◌, ℤ, pos, negsuc, true, false, List, [], ◌∷◌, ◌++◌, ◌≡◌, refl, sym, ap,
  Option, none, some, Bytes, length, take, arith,
}
use multi_cctv_object_detect.ThreadSafe.{ThreadSafeStack, new_stack}
use multi_cctv_object_detect.ThreadSafe.Newest.{push_all, push_all-newest}
use multi_cctv_object_detect.Camera.Capture.{
  VideoCapture, Cctv, connected, capture, start_image_capture,
}

-- The frames of all connections, in the order in which they come.
abbrev frames_of {ℓ} : {Mat : Type ℓ} → List (List Mat) → List Mat
frames_of [] = []
frames_of (frames ∷ later) = frames ++ frames_of later

-- Each frame is one reading, and each connection ends with a reading that gives none.
abbrev pub readings {ℓ} : {Mat : Type ℓ} → List (List Mat) → ℕ
readings [] = 0
readings (frames ∷ later) = length frames + suc (readings later)

module _ {V Mat : Type 0} (cv : VideoCapture V Mat) (url : Bytes) where
  -- The readings give the frames, one after the other, and then none.
  abbrev Reads : V → List Mat → V → Type 0
  Reads cap [] end = cv.read cap ≡ (none, end)
  Reads cap (frame ∷ frames) end =
      (cap' : V) × (cv.read cap ≡ (some frame, cap')) × Reads cap' frames end

  -- After an attempt to connect: the capture is open and gives the frames of the first connection, and
  -- so for the later ones; at last it is not open.
  unfoldable pub Serves : V → List (List Mat) → Type 0
  unfolding connected
  Serves cap [] = cv.is_opened cap ≡ false
  Serves cap (frames ∷ later) =
      (cv.is_opened cap ≡ true)
      × (end : V) × Reads cap frames end
      × Serves (connected cv url (cv.release end)) later

  abbrev camera : ThreadSafeStack Mat → V → Cctv V Mat
  camera s cap = record { rtsp_url = url; image_stack = s; vicap = cap }

  answer_is :
      {answer : Option Mat × V} {frame : Option Mat} {cap : V}
      → answer ≡ (frame, cap)
      → answer.0 ≡ frame
  answer_is = ap (λ (p : Option Mat × V). p.0)

  capture_is :
      {answer : Option Mat × V} {frame : Option Mat} {cap : V}
      → answer ≡ (frame, cap)
      → answer.1 ≡ cap
  capture_is = ap (λ (p : Option Mat × V). p.1)

  -- What `capture` comes to from the frames of an open connection and those of the later ones.
  capture-from :
      (s : ThreadSafeStack Mat) (seen frames : List Mat) (later : List (List Mat)) (rounds : ℕ)
      (cap end : V)
      → Reads cap frames end
      → Serves (connected cv url (cv.release end)) later
      → length frames + suc (readings later) ≤ rounds
      → (last : V) × (capture cv rounds (camera (push_all s seen) cap)
          ≡ some (pos 1, camera (push_all s (reverse_aux (frames ++ frames_of later) seen)) last))
        × (cv.is_opened last ≡ false)
  unfolding capture connected Serves
  capture-from s seen [] later zero cap end reads serves enough = absurd (omega (arith, enough))
  capture-from s seen (f ∷ frames) later zero cap end reads serves enough =
      absurd (omega (arith, enough))
  capture-from s seen [] [] (suc rounds) cap end reads closed enough = (
    connected cv url (cv.release end),
    rw (capture, answer_is reads, capture_is reads, closed) refl,
    closed,
  )
  capture-from s seen [] (frames ∷ later) (suc rounds) cap end reads (opened, end', reads', serves)
        enough =
      let (last, e, closed) =
        capture-from s seen frames later rounds (connected cv url (cv.release end)) end' reads'
          serves (omega (arith, enough)) in
      (last, rw (capture, answer_is reads, capture_is reads, opened) e, closed)
  capture-from s seen (frame ∷ frames) later (suc rounds) cap end (cap', read, reads) serves
        enough =
      let (last, e, closed) =
        capture-from s (frame ∷ seen) frames later rounds cap' end reads serves
          (omega (arith, enough)) in
      (last, rw (capture, answer_is read, capture_is read) e, closed)

-- The number that `start_image_capture` returns: -1 where the camera is not reached at first.
abbrev number_of {ℓ} : {A : Type ℓ} → List A → ℤ
number_of [] = negsuc 0
number_of (x ∷ xs) = pos 1

-- Let a camera be reached again and again, each time giving some frames until a reading fails, and at
-- last not be reached. Then `start_image_capture` ends, within as many rounds as readings are made, and
-- returns -1 if the camera was never reached, 1 otherwise, with the capture not open; a new stack with
-- the bound `n + 1`, from which no thread pops meanwhile, then holds the last `n + 1` frames of all
-- connections together, the newest on top, or all where there are fewer.
pub start_image_capture-newest :
    {V Mat : Type 0} (cv : VideoCapture V Mat) (url : Bytes) (n : ℕ) (cap : V)
    (served : List (List Mat)) (rounds : ℕ)
    → Serves cv url (connected cv url cap) served
    → readings served ≤ rounds
    → (last : V) × (start_image_capture cv rounds
          (record { rtsp_url = url; image_stack = new_stack (pos (suc n)); vicap = cap })
        ≡ some (
          number_of served,
          record {
            rtsp_url = url;
            image_stack = record {
              data_container_ = take (suc n) (reverse (frames_of served));
              stack_max_size = pos (suc n);
            };
            vicap = last;
          },
        ))
      × (cv.is_opened last ≡ false)
unfolding start_image_capture connected Serves
start_image_capture-newest cv url n cap [] rounds closed enough =
    (connected cv url cap, rw closed refl, closed)
start_image_capture-newest cv url n cap (frames ∷ later) rounds (opened, end, reads, serves)
      enough =
    let (last, e, closed) =
      capture-from cv url (new_stack (pos (suc n))) [] frames later rounds (connected cv url cap)
        end reads serves enough in
    (last, rw opened (rw (sym (push_all-newest n (reverse (frames ++ frames_of later)))) e), closed)
