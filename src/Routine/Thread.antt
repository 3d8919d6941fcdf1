-- ===== src/Routine/Thread.antt =====
-- src/main.cpp: `routine` from its first line on, as the thread of a channel runs it.
use multi_cctv_object_detect.Prelude.{
  ℕ, ℤ, Bool, List, none, some, Option, Bytes, codes, Result, ok, ◌>>=◌,
}
use multi_cctv_object_detect.Inference.{BBoxInfo}
use multi_cctv_object_detect.Log.{Log, error, push}
use multi_cctv_object_detect.Boot.{Ini, start_routine}
use multi_cctv_object_detect.Channel.Labels.{Doubles, Sizes}
use multi_cctv_object_detect.Camera.{OpenCv, Pictures}
use multi_cctv_object_detect.Routine.{Round, Routine, routine}

module _ {Mat F D : Type 0} (cv : OpenCv Mat) (ops : Doubles D) (two_places : F → Bytes)
    (network : Mat → List (BBoxInfo F)) (sizes : Pictures Mat → Sizes)
    (sort : List (Bytes × ℕ) → List (Bytes × ℕ)) (throws : Bytes → Bool) (frames_to_check : ℕ)
    (get : Ini) where
  abbrev network_missing : Log → Bytes → ℤ → Log
  network_missing log log_time id = push log log_time error (codes "Cannot load ONNX model") id

  -- The log after the start of the thread, and what the loop keeps when it ends.
  unfoldable pub run_thread :
      Result Bool
      → Bytes
      → Log
      → List (Bool × Round)
      → Routine Mat
      → Result (Log × Option (Routine Mat))
  run_thread net log_time log rounds s = start_routine get net s.channel >>= λ started.
      elim started [
        | none ↦ ok (network_missing log log_time s.channel.camera_channel_id, some s)
        | some settings ↦
            (routine cv ops two_places network sizes sort throws settings.width settings.height
                frames_to_check rounds s
              >>= λ o. ok (log, o))
      ]
