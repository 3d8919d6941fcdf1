-- ===== src/AlarmManager/Cases.antt =====
-- src/alarm/alarmManager.cpp: the branches of `process_channel_alarms`.
use multi_cctv_object_detect.Prelude.{
  ℕ, ℤ, pos, negsuc, ◌==ℤ◌, ==ℤ_iff, Bool, true, false, List, ◌≡◌, ◌⊎◌, inl, inr, none, some, arith,
  Result, ok, if◌then◌else◌, Bool-cases, Option-cases, find_key, erase_key, find-erase,
}
use multi_cctv_object_detect.AlarmManager.{
  AlarmManager, World, Frame, can_cancel, cancel_alarm, is_on_cooldown, within, check_rules,
  process_channel_alarms,
}

-- The entry of the channel is gone, and no other has changed.
abbrev pub Released : ℤ → List (ℤ × ℕ) → List (ℤ × ℕ) → Type 0
Released ch before after =
    (j : ℤ) → find_key after j ≡ (if ch ==ℤ j then none else find_key before j)

-- Less than the cooltime has passed since the channel's last alarm.
abbrev pub OnCooldown : AlarmManager → ℤ → ℕ → Type 0
OnCooldown m ch now =
    (since : ℕ) × (find_key m.channel_cooldowns ch ≡ some since)
    × (within m.cooltime since now ≡ true)

abbrev IsOnCooldown : AlarmManager → ℤ → ℕ → Bool × AlarmManager → Type 0
IsOnCooldown m ch now r =
    (OnCooldown m ch now × (r ≡ (true, m)))
    ⊎ ((¬ OnCooldown m ch now)
        × (cs : List (ℤ × ℕ)) × Released ch m.channel_cooldowns cs
        × (r ≡ (false, record m { channel_cooldowns = cs })))

Released-none : (ch : ℤ) (cs : List (ℤ × ℕ)) → find_key cs ch ≡ none → Released ch cs cs
Released-none ch cs e j = elim (Bool-cases (ch ==ℤ j)) [
  | inl same ↦ rw (same, ← (==ℤ_iff ch j).0 same) e
  | inr other ↦ rw other
]

is_on_cooldown-cases :
    (m : AlarmManager) (ch : ℤ) (now : ℕ) → IsOnCooldown m ch now (is_on_cooldown m ch now)
unfolding is_on_cooldown
is_on_cooldown-cases m ch now = elim (Option-cases (find_key m.channel_cooldowns ch)) [
  | inl e ↦ inr (
    λ (s, e', _). cc,
    m.channel_cooldowns,
    Released-none ch m.channel_cooldowns e,
    rw (e, is_on_cooldown),
  )
  | inr (since, e) ↦ elim (Bool-cases (within m.cooltime since now)) [
    | inl early ↦ inl ((since, e, early), rw (e, is_on_cooldown, early))
    | inr late ↦ inr (
      λ (s, e', early). ground arith,
      erase_key m.channel_cooldowns ch,
      find-erase m.channel_cooldowns ch,
      rw (e, is_on_cooldown, late),
    )
  ]
]

-- What a call does: it cancels the channel's alarm; or it stops at the cooldown; or it comes to the
-- rules, with a cooldown that has run out erased.
pub data Branch (k : ℕ) (m : AlarmManager) (w : World) (f : Frame)
    (r : Result (ℤ × AlarmManager × World)) : Type 0 where
  cancels :
      can_cancel m f ≡ true
      → r
        ≡ ok (
          pos 0,
          (cancel_alarm m w f.channel_id f.log_time).0,
          (cancel_alarm m w f.channel_id f.log_time).1,
        )
      → Branch k m w f r
  waits :
      can_cancel m f ≡ false
      → OnCooldown m f.channel_id f.cooldown_now
      → r ≡ ok (negsuc 0, m, w)
      → Branch k m w f r
  checks :
      can_cancel m f ≡ false
      → (¬ OnCooldown m f.channel_id f.cooldown_now)
      → (cs : List (ℤ × ℕ)) → Released f.channel_id m.channel_cooldowns cs
      → r ≡ check_rules k (record m { channel_cooldowns = cs }) w f
      → Branch k m w f r

pub process-Branch :
    (k : ℕ) (m : AlarmManager) (w : World) (f : Frame)
    → Branch k m w f (process_channel_alarms k m w f)
unfolding process_channel_alarms
process-Branch k m w f = elim (Bool-cases (can_cancel m f)) [
  | inl staff ↦ cancels staff (rw staff)
  | inr nobody ↦ elim (is_on_cooldown-cases m f.channel_id f.cooldown_now) [
    | inl (on, e) ↦ waits nobody on (rw (nobody, e))
    | inr (off, cs, rel, e) ↦ checks nobody off cs rel (rw (nobody, e))
  ]
]
