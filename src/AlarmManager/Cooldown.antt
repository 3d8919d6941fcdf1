-- ===== src/AlarmManager/Cooldown.antt =====
-- src/alarm/alarmManager.cpp: a call during the cooldown of its channel.
use multi_cctv_object_detect.Prelude.{
  ℕ, ℤ, pos, negsuc, true, ◌≡◌, ◌≢◌, refl, some, ok, find_key, find-put, ==ℤ_refl,
}
use multi_cctv_object_detect.AlarmManager.{
  AlarmManager, World, Frame, cancel_alarm, within, process_channel_alarms,
}
use multi_cctv_object_detect.AlarmManager.Cases.{OnCooldown, cancels, waits, checks, process-Branch}
use multi_cctv_object_detect.AlarmManager.Outcome.{
  cancelled, waiting, checked, quiet, raises, process-Outcome,
}

-- After an alarm the channel's cooldown runs from the time it was raised.
raised-cooldown :
    (k : ℕ) (m : AlarmManager) (w : World) (f : Frame) (m' : AlarmManager) (w' : World)
    → process_channel_alarms k m w f ≡ ok (pos 1, m', w')
    → (find_key m'.channel_cooldowns f.channel_id ≡ some f.start_now) × (m'.cooltime ≡ m.cooltime)
raised-cooldown k m w f m' w' e = elim (process-Outcome k m w f (pos 1) m' w' e) [
  | cancelled _ r _ _ ↦ cc
  | waiting _ _ r _ _ ↦ cc
  | checked _ _ cs _ (quiet _ r _ _) ↦ cc
  | checked _ _ cs _ (raises a _ _ _ _ _ _ em _) ↦ (rw (em, find-put, ==ℤ_refl), rw em)
]

-- While less than the cooltime has passed since a channel's alarm, a call for that channel returns,
-- but not with an alarm: it publishes nothing, uses up no number, and leaves the cooldown as it is.
raised-then-quiet :
    (k : ℕ) (m : AlarmManager) (w : World) (f g : Frame) (m₁ : AlarmManager) (w₁ : World)
    → process_channel_alarms k m w f ≡ ok (pos 1, m₁, w₁)
    → g.channel_id ≡ f.channel_id
    → within m.cooltime f.start_now g.cooldown_now ≡ true
    → (r : ℤ) × (m₂ : AlarmManager) × (w₂ : World) × (process_channel_alarms k m₁ w₁ g
        ≡ ok (r, m₂, w₂))
      × (r ≢ pos 1)
      × (m₂.id ≡ m₁.id)
      × (w₂.published ≡ w₁.published)
      × (m₂.channel_cooldowns ≡ m₁.channel_cooldowns)
unfolding cancel_alarm
raised-then-quiet k m w f g m₁ w₁ e same early =
    let (at_start, same_time) = raised-cooldown k m w f m₁ w₁ e in
    let on : OnCooldown m₁ g.channel_id g.cooldown_now =
      (f.start_now, rw same at_start, rw same_time early) in
    elim (process-Branch k m₁ w₁ g) [
      | cancels staff e' ↦ (pos 0, _, _, e', (λ t. cc), refl, refl, refl)
      | waits nobody _ e' ↦ (negsuc 0, m₁, w₁, e', (λ t. cc), refl, refl, refl)
      | checks nobody off cs rel e' ↦ absurd (off on)
    ]
