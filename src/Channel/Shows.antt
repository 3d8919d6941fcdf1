-- ===== src/Channel/Shows.antt =====
-- src/main.cpp with src/alarm/alarmManager.cpp: what the web page reads after a turn of a channel's loop.
use multi_cctv_object_detect.Prelude.{
  ◌∷◌, ℕ, ℤ, pos, ◌≤◌, Bool, true, false, ◌||◌, List, map, ◌≡◌, ◌≢◌, ◌↔◌, ◌⊎◌, inl, inr, refl, sym,
  ap, subst, ◌∙◌, arith, some, Bytes, All, ok, err, Result, >>=-eq-ok, Bool-cases, if◌then◌else◌,
  ◌==ℤ◌, ==ℤ_iff,
}
use multi_cctv_object_detect.Alarm.{DetectedHistoryItem}
use multi_cctv_object_detect.AlarmFile.Render.{Rule, alarm_of}
use multi_cctv_object_detect.AlarmManager.{
  AlarmManager, World, Frame, number_alarms, can_cancel, is_channel_active, process_channel_alarms,
}
use multi_cctv_object_detect.AlarmManager.Rules.{Fires, AnyRule, IsReady}
use multi_cctv_object_detect.AlarmManager.Cases.{OnCooldown}
use multi_cctv_object_detect.AlarmManager.Channels.{process-active}
use multi_cctv_object_detect.Inference.{BBoxInfo}
use multi_cctv_object_detect.Channel.{CameraChannel, Turn, detected, observe, frame_of, turn}
use multi_cctv_object_detect.Channel.Alarms.{seen_frame, turn-raises_iff}
use multi_cctv_object_detect.Channel.Labels.{Doubles, Sizes, drawings, net_result, net_res}
use multi_cctv_object_detect.Channel.Recent.{newest}
use multi_cctv_object_detect.Channel.SavePaths.{Written, write-Written}
use multi_cctv_object_detect.Handler.Split.{unlines}
use multi_cctv_object_detect.Channel.WebLines.{object_text, net_res-unlines}
use multi_cctv_object_detect.Channel.WebFile.{
  Files, read_file, write_text, save_path, classes_of, Shown, show_turn,
}

-- What a turn that has ended did to the channel's alarm, for the call's frame `g`.
abbrev ActiveAfter : CameraChannel → AlarmManager → Frame → Result Turn → Type 0
ActiveAfter c m g (err fault) = Unit {0}
ActiveAfter c m g (ok (c', m', w')) =
    (c'.camera_channel_id ≡ c.camera_channel_id)
    × (is_channel_active m' c.camera_channel_id ≡ (
        if can_cancel m g
        then false
        else (c'.alarm_result ==ℤ pos 1) || is_channel_active m c.camera_channel_id))

turn-ActiveAfter :
    (k : ℕ) (c : CameraChannel) (m : AlarmManager) (w : World) (f : Frame) (time : ℕ)
    (classes : List ℤ) (t : Turn)
    → turn k c m w f (detected time classes) ≡ ok t
    → ActiveAfter c m (frame_of (observe c (detected time classes)) f) (ok t)
unfolding turn observe
turn-ActiveAfter k c m w f time classes t e =
    let c₁ = observe c (detected time classes) in
    let ((r, m₁, w₁), called, ended) =
      >>=-eq-ok (process_channel_alarms k m w (frame_of c₁ f))
        (λ (r, m', w'). ok (record c₁ { alarm_result = r }, m', w')) e in
    subst (ActiveAfter c m (frame_of c₁ f)) ended
      (refl, process-active k m w (frame_of c₁ f) r m₁ w₁ called)

-- The flag of a call that returned, from its result and the condition for an alarm.
is_active_iff {ℓ} :
    {Raises : Type ℓ} (staff active_before active_after : Bool) (r : ℤ)
    → active_after ≡ (if staff then false else (r ==ℤ pos 1) || active_before)
    → ((r ≡ pos 1) ↔ ((staff ≡ false) × Raises))
    → (active_after ≡ true) ↔ ((staff ≡ false) × ((active_before ≡ true) ⊎ Raises))
is_active_iff true active_before active_after r e i = (λ on. cc, λ (nobody, _). cc)
is_active_iff false active_before active_after r e i = (
  λ on. elim (Bool-cases (r ==ℤ pos 1)) [
    | inl raised ↦ (refl, inr (i.0 ((==ℤ_iff r (pos 1)).0 raised)).1)
    | inr quiet ↦ (refl, inl (ground arith))
  ],
  λ (_, why). elim why [
    | inl before ↦ ground arith
    | inr raises ↦ e ∙ rw ((==ℤ_iff r (pos 1)).1 (i.1 (refl, raises)))
  ],
)

module _ {F D : Type 0} (ops : Doubles D) (two_places : F → Bytes) where
  -- What follows the call of the alarm manager has no fault.
  pub show_turn-turn :
      (k : ℕ) (c : CameraChannel) (m : AlarmManager) (w : World) (f : Frame) (time : ℕ)
      (results : List (BBoxInfo F)) (s : Sizes) (opens : Bool) (files : Files) (c' : CameraChannel)
      (m' : AlarmManager) (w' : World)
      → turn k c m w f (detected time (classes_of results)) ≡ ok (c', m', w')
      → (shown : Shown) × (files' : Files) × (show_turn ops two_places k c m w f time results s
            opens files
          ≡ ok (c', m', w', shown, files'))
  unfolding show_turn
  show_turn-turn k c m w f time results s opens files c' m' w' e =
      let is_alarm = is_channel_active m' c'.camera_channel_id in
      (
        record { drawn = drawings two_places is_alarm results; labels = net_result ops s results },
        if opens
            then write_text files (save_path c'.camera_channel_id) (net_res ops s is_alarm results)
            else files,
        rw (e, show_turn) refl,
      )

  -- Let the history hold the last 199 of the frames that the channel has seen, and the manager have the
  -- rules of an alarm file loaded, well-formed, with `not` in front of class numbers only and each with
  -- its context. Let `k` be at most 199, and nothing throw in what the turn calls of OpenCV and the file
  -- system. Then a turn that finds objects in its frame, and can open the channel's file, has no fault. The
  -- file then has one line for each object, in order: a 1 or a 0, a blank, and the object's class and box. It
  -- is 1 exactly when staff does not cancel an alarm and either the channel had an active alarm before, or
  -- it is not on cooldown and some rule for it holds in each of the last `k` frames seen, this one included.
  -- The files of all other channels are as before.
  pub show_turn-Shows :
      (k : ℕ) (c : CameraChannel) (m : AlarmManager) (w : World) (f : Frame) (time : ℕ)
      (results : List (BBoxInfo F)) (s : Sizes) (files : Files) (rules : List Rule)
      (seen : List DetectedHistoryItem) (i : ℕ)
      → k ≤ 199
      → c.camera_channel_id ≡ pos i
      → c.detected_class_history ≡ newest 199 seen
      → m.alarms ≡ number_alarms 1 (map alarm_of rules)
      → All (IsReady m.alarm_context) rules
      → (c' : CameraChannel) × (m' : AlarmManager) × (w' : World) × (shown : Shown)
        × (files' : Files) × (is_alarm : Bool) × (show_turn ops two_places k c m w f time results s
              true files
            ≡ ok (c', m', w', shown, files'))
        × (read_file files' (save_path (pos i))
            ≡ some (
                unlines (
                  map
                    (λ det. (if is_alarm then b'1' else b'0') ∷ b' ' ∷ object_text ops s det)
                    results)))
        × ((is_alarm ≡ true) ↔ (
            (can_cancel m (seen_frame c f time (classes_of results) seen) ≡ false)
            × ((is_channel_active m c.camera_channel_id ≡ true)
                ⊎ ((¬ OnCooldown m c.camera_channel_id f.cooldown_now)
                    × AnyRule (Fires k (seen_frame c f time (classes_of results) seen)) rules))))
        × ((j : ℕ)
            → j ≢ i
            → read_file files' (save_path (pos j)) ≡ read_file files (save_path (pos j)))
  unfolding show_turn can_cancel
  show_turn-Shows k c m w f time results s files rules seen i h ident kept loaded ready =
      let classes : List ℤ = classes_of results in
      let (c', m', w', e, _, raises) =
        turn-raises_iff k c m w f time classes rules seen h kept loaded ready in
      let (same, active) = turn-ActiveAfter k c m w f time classes (c', m', w') e in
      let is_alarm = is_channel_active m' c'.camera_channel_id in
      let text : Bytes = net_res ops s is_alarm results in
      let (mine, others) =
        subst (Written files text i) (sym (same ∙ ident)) (write-Written files text i) in
      let shown : Shown = record {
        drawn = drawings two_places is_alarm results;
        labels = net_result ops s results;
      } in
      let flag : is_alarm ≡ (
          if can_cancel m (seen_frame c f time classes seen)
          then false
          else (c'.alarm_result ==ℤ pos 1) || is_channel_active m c.camera_channel_id) =
        ap (is_channel_active m') same ∙ active in
      (
        c',
        m',
        w',
        shown,
        write_text files (save_path c'.camera_channel_id) text,
        is_alarm,
        rw (e, show_turn) refl,
        mine ∙ ap some (net_res-unlines ops s is_alarm results),
        is_active_iff
            {Raises = (¬ OnCooldown m c.camera_channel_id f.cooldown_now)
              × AnyRule (Fires k (seen_frame c f time classes seen)) rules}
            (can_cancel m (seen_frame c f time classes seen))
            (is_channel_active m c.camera_channel_id) is_alarm c'.alarm_result flag
            (
              λ t. let (nobody, off, fires) = raises.0 t in (nobody, (off, fires)),
              λ (nobody, why). raises.1 (nobody, why.0, why.1),
            ),
        others,
      )
