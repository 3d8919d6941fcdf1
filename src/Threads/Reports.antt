-- ===== src/Threads/Reports.antt =====
-- src/main.cpp: `staff_report_routine` ends, and how often it reports before.
use multi_cctv_object_detect.Prelude.{
  ℕ, zero, suc, ℤ, pos_part, ◌+◌, ◌*◌, ◌≤◌, ◌<◌, Bool, true, false, ltb, leb, Bool-cases, List, [],
  ◌∷◌, ◌≡◌, inl, inr, refl, ap, ◌∙◌, Option, none, some, arith, map, codes, if◌then◌else◌,
  Option-cases,
}
use multi_cctv_object_detect.Mqtt.{Message, staff_payload, publish}
use multi_cctv_object_detect.Threads.{StaffView, message_of, wait_seconds, staff_report_routine}

-- What is published of a view, if anything: one entry for each channel.
abbrev pub report_for : StaffView → Option Message
report_for v = elim v.world.mqtt.client_ [
  | none ↦ none
  | some client ↦
      if v.is_connected
      then some (record {
        topic = codes "CCTV/StaffCount";
        payload = staff_payload (record {
          entries =
              map
                (λ c. record {
                  camera_id = c.camera_channel_id;
                  destination = c.robot_destination;
                  staff_count = c.current_staff_count;
                })
                v.channels;
          timestamp = v.timestamp;
        });
        qos = 1;
      })
      else none
]

message_of-report_for : (v : StaffView) → message_of v ≡ report_for v
unfolding publish
message_of-report_for v = elim (Option-cases v.world.mqtt.client_) [
  | inl nobody ↦ rw (nobody, publish) refl
  | inr (client, there) ↦ elim (Bool-cases v.is_connected) [
    | inl on ↦ rw (there, publish, on) refl
    | inr off ↦ rw (there, publish, off) refl
  ]
]

-- The reports of `count` rounds from reading `t` on, with `period` readings for a round.
abbrev pub reports_from : (ℕ → StaffView) → ℕ → ℕ → ℕ → List (Option Message)
reports_from seen period zero t = []
reports_from seen period (suc count) t =
    report_for (seen (t + period)) ∷ reports_from seen period count (t + period)

-- `g_running` is set to false between the readings `stop - 1` and `stop`, and stays so.
pub record StopsAt (running : ℕ → Bool) (stop : ℕ) : Type 0 where
  pub before : (t : ℕ) → t < stop → running t ≡ true
  pub after : (t : ℕ) → stop ≤ t → running t ≡ false

module _ {running : ℕ → Bool} {stop : ℕ} (h : StopsAt running stop) where
  wait_seconds-full : (n t : ℕ) → t + n ≤ stop → wait_seconds running n t ≡ t + n
  unfolding wait_seconds
  wait_seconds-full zero t le = omega arith
  wait_seconds-full (suc n) t le =
      rw (h.before t (omega (arith, le)))
        (wait_seconds-full n (suc t) (omega (arith, le)) ∙ omega arith)

  wait_seconds-cut : (n t : ℕ) → t ≤ stop → stop < t + n → wait_seconds running n t ≡ suc stop
  unfolding wait_seconds
  wait_seconds-cut zero t le lt = absurd (omega (arith, le, lt))
  wait_seconds-cut (suc n) t le lt = elim (Bool-cases (ltb t stop)) [
    | inl early ↦
        rw (h.before t (ground arith))
          (wait_seconds-cut n (suc t) (ground arith) (omega (arith, lt)))
    | inr late ↦ rw (h.after t (ground arith)) (ground arith)
  ]

  module _ (seen : ℕ → StaffView) (interval : ℤ) where
    routine-last :
        (rounds t : ℕ)
        → t ≤ stop
        → stop < t + (pos_part interval + 2)
        → (end : ℕ) × (staff_report_routine running seen interval (suc rounds) t ≡ some (end, []))
          × (end ≤ stop + 2)
    unfolding staff_report_routine
    routine-last rounds t le lt = elim (Bool-cases (ltb t stop)) [
      | inl early ↦ elim (Bool-cases (leb (suc t + pos_part interval) stop)) [
        | inl full ↦
            let e : suc t + pos_part interval ≡ stop = ground arith in
            let waited = wait_seconds-full (pos_part interval) (suc t) (ground arith) in
            (
              suc (suc t + pos_part interval),
              rw
                  (
                    h.before t (ground arith),
                    waited,
                    h.after (suc t + pos_part interval) (omega (arith, e)),
                  )
                  refl,
              omega (arith, e),
            )
        | inr cut ↦
            let waited =
              wait_seconds-cut (pos_part interval) (suc t) (ground arith) (ground arith) in
            (
              suc (suc stop),
              rw (h.before t (ground arith), waited, h.after (suc stop) (omega arith)) refl,
              omega arith,
            )
      ]
      | inr late ↦ (suc t, rw (h.after t (ground arith)) refl, omega (arith, le))
    ]

    routine-round :
        (rounds t : ℕ)
        → t + (pos_part interval + 2) ≤ stop
        → {end : ℕ} {sent : List (Option Message)}
        → staff_report_routine running seen interval rounds (t + (pos_part interval + 2))
          ≡ some (end, sent)
        → staff_report_routine running seen interval (suc rounds) t
          ≡ some (end, report_for (seen (t + (pos_part interval + 2))) ∷ sent)
    unfolding staff_report_routine
    routine-round rounds t le {end} {sent} e =
        let waited : wait_seconds running (pos_part interval) (suc t) ≡ suc t + pos_part interval =
          wait_seconds-full (pos_part interval) (suc t) (omega (arith, le)) in
        let next : suc (suc t + pos_part interval) ≡ t + (pos_part interval + 2) = omega arith in
        rw
          (
            h.before t (omega (arith, le)),
            waited,
            h.before (suc t + pos_part interval) (omega (arith, le)),
            next,
            e,
          )
          (ap (λ n. some (end, message_of (seen n) ∷ sent)) (ap suc waited ∙ next)
            ∙ ap (λ r. some (end, r ∷ sent))
                (message_of-report_for (seen (t + (pos_part interval + 2)))))

    routine-reports :
        (count rest rounds t : ℕ)
        → stop ≡ t + (count * (pos_part interval + 2) + rest)
        → rest < pos_part interval + 2
        → count < rounds
        → (end : ℕ) × (staff_report_routine running seen interval rounds t
            ≡ some (end, reports_from seen (pos_part interval + 2) count t))
          × (end ≤ stop + 2)
    routine-reports count rest zero t e small enough = absurd (omega (arith, enough))
    routine-reports zero rest (suc rounds) t e small enough =
        routine-last rounds t (omega (arith, e)) (omega (arith, e, small))
    routine-reports (suc count) rest (suc rounds) t e small enough =
        let period = pos_part interval + 2 in
        let e' : stop ≡ t + period + (count * period + rest) = grind arith in
        let (end, e₁, early) =
          routine-reports count rest rounds (t + period) e' small (omega (arith, enough)) in
        (end, routine-round rounds t (omega (arith, e')) e₁, early)

-- Let `g_running` be true for the first readings of the thread, as many as `count` rounds of
-- `interval + 2` readings and `rest` further ones, fewer than a round, and false from then on. Then
-- `staff_report_routine` ends, within more than `count` rounds of its loop, at most two readings after
-- the change, and it has called `publish` exactly `count` times, each after its wait: with a client that is
-- connected a report goes out, on "CCTV/StaffCount" with quality of service 1, with the number, the
-- destination and the staff count of every channel as seen then; otherwise nothing goes out.
pub staff_report_routine-reports :
    (running : ℕ → Bool) (seen : ℕ → StaffView) (interval : ℤ) (count rest rounds : ℕ)
    → StopsAt running (count * (pos_part interval + 2) + rest)
    → rest < pos_part interval + 2
    → count < rounds
    → (end : ℕ) × (staff_report_routine running seen interval rounds 0
        ≡ some (end, reports_from seen (pos_part interval + 2) count 0))
      × (end ≤ count * (pos_part interval + 2) + rest + 2)
staff_report_routine-reports running seen interval count rest rounds h small enough =
    routine-reports h seen interval count rest rounds 0 (omega arith) small enough
