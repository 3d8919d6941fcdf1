-- ===== src/AlarmManager/Outcome.antt =====
-- src/alarm/alarmManager.cpp: what a call that returned has done, branch by branch.
use multi_cctv_object_detect.Prelude.{
  ℕ, ℤ, pos, negsuc, true, false, List, ◌≡◌, inl, inr, sym, ◌∙◌, Option, none, some, ok, >>=-eq-ok,
}
use multi_cctv_object_detect.Alarm.{Alarm}
use multi_cctv_object_detect.AlarmManager.{
  AlarmManager, World, Frame, context_at, can_cancel, cancel_alarm, first_rule, raise_alarm,
  check_rules, after_rules, process_channel_alarms,
}
use multi_cctv_object_detect.AlarmManager.Cases.{
  OnCooldown, Released, cancels, waits, checks, process-Branch,
}
use multi_cctv_object_detect.AlarmManager.Raise.{raised, raised_world, raise_alarm-Raises}

-- What a call that comes to the rules can return.
pub data Checked (k : ℕ) (m : AlarmManager) (w : World) (f : Frame) (r : ℤ) (m' : AlarmManager)
    (w' : World) : Type 0 where
  quiet : first_rule k f m.alarms ≡ ok none → r ≡ pos 0 → m' ≡ m → w' ≡ w → Checked k m w f r m' w'
  raises :
      (a : Alarm)
      → first_rule k f m.alarms ≡ ok (some a)
      → (alarm_id : ℤ) (message : List ℕ) → a.alarm_id ≡ some alarm_id
      → context_at m.alarm_context alarm_id ≡ ok message
      → r ≡ pos 1
      → m' ≡ raised m f
      → w' ≡ raised_world m w f a alarm_id message
      → Checked k m w f r m' w'

after_rules-Checked :
    (k : ℕ) (m : AlarmManager) (w : World) (f : Frame) (r : ℤ) (m' : AlarmManager) (w' : World)
    (o : Option Alarm)
    → first_rule k f m.alarms ≡ ok o
    → after_rules m w f o ≡ ok (r, m', w')
    → Checked k m w f r m' w'
after_rules-Checked k m w f r m' w' none scan e = quiet scan (cc) (cc) (cc)
after_rules-Checked k m w f r m' w' (some a) scan e =
    let (p, e₁, e₂) = >>=-eq-ok (raise_alarm m w f a) _ e in
    elim (raise_alarm-Raises m w f a) [
      | inl fault ↦ cc
      | inr (alarm_id, message, numbered, said, e₃) ↦
          raises a scan alarm_id message numbered said (cc) (cc) (cc)
    ]

check_rules-Checked :
    (k : ℕ) (m : AlarmManager) (w : World) (f : Frame) (r : ℤ) (m' : AlarmManager) (w' : World)
    → check_rules k m w f ≡ ok (r, m', w')
    → Checked k m w f r m' w'
unfolding check_rules
check_rules-Checked k m w f r m' w' e =
    let (o, scan, e') = >>=-eq-ok (first_rule k f m.alarms) _ e in
    after_rules-Checked k m w f r m' w' o scan e'

-- What a call that returned has done.
pub data Outcome (k : ℕ) (m : AlarmManager) (w : World) (f : Frame) (r : ℤ) (m' : AlarmManager)
    (w' : World) : Type 0 where
  cancelled :
      can_cancel m f ≡ true
      → r ≡ pos 0
      → m' ≡ (cancel_alarm m w f.channel_id f.log_time).0
      → w' ≡ (cancel_alarm m w f.channel_id f.log_time).1
      → Outcome k m w f r m' w'
  waiting :
      can_cancel m f ≡ false
      → OnCooldown m f.channel_id f.cooldown_now
      → r ≡ negsuc 0
      → m' ≡ m
      → w' ≡ w
      → Outcome k m w f r m' w'
  checked :
      can_cancel m f ≡ false
      → (¬ OnCooldown m f.channel_id f.cooldown_now)
      → (cs : List (ℤ × ℕ)) → Released f.channel_id m.channel_cooldowns cs
      → Checked k (record m { channel_cooldowns = cs }) w f r m' w'
      → Outcome k m w f r m' w'

pub process-Outcome :
    (k : ℕ) (m : AlarmManager) (w : World) (f : Frame) (r : ℤ) (m' : AlarmManager) (w' : World)
    → process_channel_alarms k m w f ≡ ok (r, m', w')
    → Outcome k m w f r m' w'
process-Outcome k m w f r m' w' e = elim (process-Branch k m w f) [
  | cancels staff e' ↦ cancelled staff (cc) (cc) (cc)
  | waits nobody on e' ↦ waiting nobody on (cc) (cc) (cc)
  | checks nobody off cs rel e' ↦
      checked nobody off cs rel
        (check_rules-Checked k (record m { channel_cooldowns = cs }) w f r m' w' (sym e' ∙ e))
]
