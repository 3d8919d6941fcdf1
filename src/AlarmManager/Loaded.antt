-- ===== src/AlarmManager/Loaded.antt =====
-- src/alarm/alarmManager.cpp with src/config/configHandler.cpp: from the text of the alarm file to the decision of `process_channel_alarms`.
use multi_cctv_object_detect.Prelude.{
  ℕ, ℤ, pos, false, List, [], map, ◌≡◌, ◌↔◌, refl, some, All, All-map, ok,
}
use multi_cctv_object_detect.Handler.Split.{unlines}
use multi_cctv_object_detect.AlarmFile.Render.{Rule, IsRule, file_lines, alarm_of}
use multi_cctv_object_detect.AlarmFile.RoundTrip.{read_conf-render}
use multi_cctv_object_detect.AlarmManager.{
  AlarmManager, World, Frame, number_alarms, load_alarms_from_file, can_cancel,
  process_channel_alarms,
}
use multi_cctv_object_detect.AlarmManager.Rules.{Fires, AnyRule, IsReady}
use multi_cctv_object_detect.AlarmManager.Cases.{OnCooldown}
use multi_cctv_object_detect.AlarmManager.Decides.{process-raises_iff}

-- The manager once it has read the rules.
abbrev pub with_rules : AlarmManager → List Rule → AlarmManager
with_rules m rules = record m { alarms = number_alarms 1 (map alarm_of rules) }

pub load-render :
    (m : AlarmManager) (rules : List Rule)
    → m.alarms ≡ []
    → All IsRule rules
    → load_alarms_from_file m (some (unlines (file_lines rules))) ≡ ok (with_rules m rules)
unfolding load_alarms_from_file
load-render m rules empty h = rw (empty, read_conf-render rules [] h)

-- A manager without rules that loads the text of well-formed rules, each with an entry in
-- `alarm_context` and with `not` in front of class numbers only, has them loaded without a fault; then
-- a call always returns, and returns 1 exactly when staff does not cancel an alarm, the channel is not
-- on cooldown, and some rule for the channel holds in each of the last `k` frames of the history.
pub load-process-raises_iff :
    (k : ℕ) (m : AlarmManager) (w : World) (f : Frame) (rules : List Rule)
    → m.alarms ≡ []
    → All (IsReady m.alarm_context) rules
    → (loaded : AlarmManager) × (load_alarms_from_file m (some (unlines (file_lines rules)))
        ≡ ok loaded)
      × (r : ℤ) × (m' : AlarmManager) × (w' : World) × (process_channel_alarms k loaded w f
          ≡ ok (r, m', w'))
      × ((r ≡ pos 1) ↔ (
          (can_cancel m f ≡ false)
          × (¬ OnCooldown m f.channel_id f.cooldown_now)
          × AnyRule (Fires k f) rules))
unfolding can_cancel
load-process-raises_iff k m w f rules empty ready =
    let formed = All-map (IsReady m.alarm_context) IsRule rules (λ r h. h.rule) ready in
    let (r, m', w', e, i) = process-raises_iff k (with_rules m rules) w f rules refl ready in
    (with_rules m rules, load-render m rules empty formed, r, m', w', e, i)
