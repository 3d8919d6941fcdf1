-- ===== src/Channel/Alarms.antt =====
-- src/main.cpp with src/alarm/alarmManager.cpp: a turn of a channel's loop, from the frame to the alarm.
use multi_cctv_object_detect.Prelude.{
  ℕ, zero, suc, ℤ, pos, ◌+◌, ◌-◌, ◌≤◌, false, List, [], ◌∷◌, ◌++◌, map, ◌≡◌, ◌↔◌, inl, inr, refl,
  sym, ap, subst, ◌∙◌, arith, length, length-drop, drop, All, ok,
}
use multi_cctv_object_detect.Alarm.{DetectedHistoryItem}
use multi_cctv_object_detect.Alarm.Meaning.{last_frames}
use multi_cctv_object_detect.AlarmFile.Render.{Rule, alarm_of}
use multi_cctv_object_detect.AlarmManager.{AlarmManager, World, Frame, number_alarms, can_cancel}
use multi_cctv_object_detect.AlarmManager.Rules.{Fires, AnyRule, IsReady}
use multi_cctv_object_detect.AlarmManager.Cases.{OnCooldown}
use multi_cctv_object_detect.AlarmManager.Decides.{process-raises_iff}
use multi_cctv_object_detect.Channel.{
  CameraChannel, bound_history, detected, history_item, observe, frame_of, turn,
}
use multi_cctv_object_detect.Channel.Recent.{newest, newest-push}

drop-nil : (n : ℕ) → drop {A = DetectedHistoryItem} n [] ≡ []
drop-nil zero = refl
drop-nil (suc n) = refl

drop-drop : (a b : ℕ) (xs : List DetectedHistoryItem) → drop a (drop b xs) ≡ drop (b + a) xs
drop-drop a zero xs = ap (λ n. drop n xs) {x = a} (omega arith)
drop-drop a (suc b) [] = drop-nil a ∙ sym (drop-nil (suc b + a))
drop-drop a (suc b) (x ∷ xs) =
    drop-drop a b xs ∙ ap (λ n. drop n (x ∷ xs)) {x = suc (b + a)} (omega arith)

-- The frames that are dropped from the history are too old for the rules.
last_frames-newest :
    (k : ℕ) (xs : List DetectedHistoryItem)
    → k ≤ 199
    → k ≤ length xs
    → last_frames k (newest 199 xs) ≡ last_frames k xs
last_frames-newest k xs h enough =
    drop-drop (length (newest 199 xs) - k) (length xs - 199) xs
    ∙ ap (λ n. drop n xs) {x = length xs - 199 + (length (newest 199 xs) - k)}
        (omega (arith, length-drop (length xs - 199) xs, h, enough))

-- A frame with another history.
abbrev with_history : Frame → List DetectedHistoryItem → Frame
with_history f xs = record f { history = xs }

module _ (k : ℕ) (h : k ≤ 199) (f : Frame) (xs : List DetectedHistoryItem) where
  Fires-newest :
      (r : Rule) → Fires k (with_history f (newest 199 xs)) r ↔ Fires k (with_history f xs) r
  Fires-newest r = (
    λ (here, (enough, all)).
        let enough' : k ≤ length xs = omega (arith, length-drop (length xs - 199) xs, enough) in
        (here, (enough', rw (← last_frames-newest k xs h enough') all)),
    λ (here, (enough, all)). (
      here,
      (
        omega (arith, length-drop (length xs - 199) xs, enough, h),
        rw (last_frames-newest k xs h enough) all,
      ),
    ),
  )

  AnyRule-newest :
      (rules : List Rule)
      → AnyRule (Fires k (with_history f (newest 199 xs))) rules
        ↔ AnyRule (Fires k (with_history f xs)) rules
  AnyRule-newest [] = (λ t. t, λ t. t)
  AnyRule-newest (r ∷ rules) =
      let one = Fires-newest r in
      let others = AnyRule-newest rules in
      (
        λ t. elim t [ inl x ↦ inl (one.0 x) | inr x ↦ inr (others.0 x) ],
        λ t. elim t [ inl x ↦ inl (one.1 x) | inr x ↦ inr (others.1 x) ],
      )

abbrev AnyRuleAt : ℕ → Frame → List Rule → List DetectedHistoryItem → Type 0
AnyRuleAt k f rules history = AnyRule (Fires k (with_history f history)) rules

-- The call's frame for a turn with these classes, when the channel has seen these frames before.
abbrev pub seen_frame : CameraChannel → Frame → ℕ → List ℤ → List DetectedHistoryItem → Frame
seen_frame c f time classes seen =
    with_history (frame_of (observe c (detected time classes)) f)
      (seen ++ history_item time classes ∷ [])

-- Let the history hold the last 199 of the frames that the channel has seen, and the manager have the
-- rules of an alarm file loaded, well-formed, with `not` in front of class numbers only and each with
-- its context. With a `k` of at most 199 a turn that finds
-- classes in its frame always ends; then the history holds the last 199 of the frames with this one;
-- and the call returned 1 exactly when staff does not cancel an alarm, the channel is not on cooldown,
-- and some rule for the channel holds in each of the last `k` frames seen, this one included.
pub turn-raises_iff :
    (k : ℕ) (c : CameraChannel) (m : AlarmManager) (w : World) (f : Frame) (time : ℕ)
    (classes : List ℤ) (rules : List Rule) (seen : List DetectedHistoryItem)
    → k ≤ 199
    → c.detected_class_history ≡ newest 199 seen
    → m.alarms ≡ number_alarms 1 (map alarm_of rules)
    → All (IsReady m.alarm_context) rules
    → (c' : CameraChannel) × (m' : AlarmManager) × (w' : World) × (turn k c m w f
          (detected time classes)
        ≡ ok (c', m', w'))
      × (c'.detected_class_history ≡ newest 199 (seen ++ history_item time classes ∷ []))
      × ((c'.alarm_result ≡ pos 1) ↔ (
          (can_cancel m (seen_frame c f time classes seen) ≡ false)
          × (¬ OnCooldown m c.camera_channel_id f.cooldown_now)
          × AnyRule (Fires k (seen_frame c f time classes seen)) rules))
unfolding turn observe can_cancel
turn-raises_iff k c m w f time classes rules seen h kept loaded ready =
    let x = history_item time classes in
    let c₁ = observe c (detected time classes) in
    let e₁ : c₁.detected_class_history ≡ newest 199 (seen ++ x ∷ []) =
      ap (λ (t : List DetectedHistoryItem). bound_history (t ++ x ∷ [])) kept
      ∙ newest-push seen x in
    let (r, m', w', e, i) = process-raises_iff k m w (frame_of c₁ f) rules loaded ready in
    let any = AnyRule-newest k h (frame_of c₁ f) (seen ++ x ∷ []) rules in
    (
      record c₁ { alarm_result = r },
      m',
      w',
      rw e,
      e₁,
      (
        λ t.
            let (nobody, off, fires) = i.0 t in
            (nobody, off, any.0 (subst (AnyRuleAt k (frame_of c₁ f) rules) e₁ fires)),
        λ (nobody, off, fires).
            i.1 (nobody, off, subst (AnyRuleAt k (frame_of c₁ f) rules) (sym e₁) (any.1 fires)),
      ),
    )
