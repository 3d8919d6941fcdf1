-- ===== src/AlarmManager/Decides.antt =====
-- src/alarm/alarmManager.cpp: `process_channel_alarms` on the rules of an alarm file.
use multi_cctv_object_detect.Prelude.{
  ℕ, ℤ, pos, negsuc, false, List, map, ◌≡◌, ◌↔◌, inl, inr, refl, ap, ◌∙◌, All, Result, ok,
  digits_value,
}
use multi_cctv_object_detect.Alarm.{set_id}
use multi_cctv_object_detect.AlarmFile.Render.{Rule, alarm_of}
use multi_cctv_object_detect.AlarmManager.{
  AlarmManager, World, Frame, number_alarms, can_cancel, first_rule, check_rules,
  process_channel_alarms,
}
use multi_cctv_object_detect.AlarmManager.Rules.{Fires, AnyRule, IsReady, first_rule-Finds}
use multi_cctv_object_detect.AlarmManager.Cases.{OnCooldown, cancels, waits, checks, process-Branch}
use multi_cctv_object_detect.AlarmManager.Raise.{raised, raised_world, raise_alarm-ok}

abbrev Returns : (ℤ → Type 0) → Result (ℤ × AlarmManager × World) → Type 0
Returns P r = (n : ℤ) × (m : AlarmManager) × (w : World) × (r ≡ ok (n, m, w)) × P n

module _ (k : ℕ) (m : AlarmManager) (w : World) (f : Frame) (rules : List Rule)
    (loaded : m.alarms ≡ number_alarms 1 (map alarm_of rules))
    (ready : All (IsReady m.alarm_context) rules) where
  check_rules-Fires : Returns (λ n. (n ≡ pos 1) ↔ AnyRule (Fires k f) rules) (check_rules k m w f)
  unfolding check_rules
  check_rules-Fires =
      let (o, e, found) = first_rule-Finds k f m.alarm_context 1 rules ready in
      let scan : first_rule k f m.alarms ≡ ok o = ap (first_rule k f) loaded ∙ e in
      elim found [
        | inl (nothing, quiet) ↦ (pos 0, m, w, rw (scan, nothing), (λ t. cc, λ t. absurd (quiet t)))
        | inr (r, n, e', (message, c), fires) ↦ (
          pos 1,
          raised m f,
          raised_world m w f (set_id (alarm_of r) (pos n)) (pos (digits_value 0 r.number)) message,
          rw (
            scan,
            e',
            raise_alarm-ok m w f (set_id (alarm_of r) (pos n)) (pos (digits_value 0 r.number))
                message refl c,
          ),
          (λ t. fires, λ t. refl),
        )
      ]

-- With the rules of an alarm file loaded, well-formed, with `not` in front of class numbers only and
-- each with its context, a call always returns, and it returns 1 exactly when staff does not cancel an alarm, the channel is not on cooldown, and some
-- rule for the channel holds in each of the last `k` frames of the history.
pub process-raises_iff :
    (k : ℕ) (m : AlarmManager) (w : World) (f : Frame) (rules : List Rule)
    → m.alarms ≡ number_alarms 1 (map alarm_of rules)
    → All (IsReady m.alarm_context) rules
    → (r : ℤ) × (m' : AlarmManager) × (w' : World) × (process_channel_alarms k m w f
        ≡ ok (r, m', w'))
      × ((r ≡ pos 1) ↔ (
          (can_cancel m f ≡ false)
          × (¬ OnCooldown m f.channel_id f.cooldown_now)
          × AnyRule (Fires k f) rules))
process-raises_iff k m w f rules loaded ready = elim (process-Branch k m w f) [
  | cancels staff e ↦ (pos 0, _, _, e, (λ t. cc, λ (nobody, _, _). cc))
  | waits nobody on e ↦ (negsuc 0, m, w, e, (λ t. cc, λ (_, off, _). absurd (off on)))
  | checks nobody off cs rel e ↦
      let (r, m', w', e', i) =
        check_rules-Fires k (record m { channel_cooldowns = cs }) w f rules loaded ready in
      (r, m', w', e ∙ e', (λ t. (nobody, off, i.0 t), λ t. i.1 t.2))
]
