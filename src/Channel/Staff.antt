-- ===== src/Channel/Staff.antt =====
-- src/main.cpp with src/alarm/alarmManager.cpp: the count of the staff.
use multi_cctv_object_detect.Prelude.{
  ℤ, List, [], ◌∷◌, ◌≡◌, inl, inr, refl, arith, ltb, ◌==ℤ◌, Bool-cases,
}
use multi_cctv_object_detect.AlarmManager.{staff_class_id, is_staff_detected}
use multi_cctv_object_detect.Channel.{staff_count}

-- The staff count of a frame is not 0 exactly where `process_channel_alarms` sees staff in it.
staff_count-is_staff_detected :
    (classes : List ℤ) → ltb 0 (staff_count classes) ≡ is_staff_detected classes
unfolding staff_count is_staff_detected
staff_count-is_staff_detected [] = refl
staff_count-is_staff_detected (cls ∷ rest) = elim (Bool-cases (cls ==ℤ staff_class_id)) [
  | inl same ↦ rw same (ground arith)
  | inr other ↦ rw other (staff_count-is_staff_detected rest)
]
