-- ===== src/AlarmManager/Channels.antt =====
-- src/alarm/alarmManager.cpp: what a call does to its own channel and to the others.
use multi_cctv_object_detect.Prelude.{
  ℕ, ℤ, pos, ◌+◌, ◌<◌, true, false, ◌||◌, ◌≡◌, refl, ◌∙◌, Option, none, some, arith, ok, find_key,
  find-put, find-erase, ==ℤ_refl, ◌==ℤ◌, if◌then◌else◌,
}
use multi_cctv_object_detect.AlarmManager.{
  AlarmManager, World, Frame, grace_period, can_cancel, cancel_alarm, is_channel_active,
  process_channel_alarms,
}
use multi_cctv_object_detect.AlarmManager.Spacing.{is_alarm}
use multi_cctv_object_detect.AlarmManager.Outcome.{
  Outcome, cancelled, waiting, checked, quiet, raises, process-Outcome,
}

-- The entries of another channel are as before, and so are the rules and the settings.
pub record Untouched (m m' : AlarmManager) (j : ℤ) : Type 0 where
  pub cooldown : find_key m'.channel_cooldowns j ≡ find_key m.channel_cooldowns j
  pub active : find_key m'.active_channels j ≡ find_key m.active_channels j
  pub rules : m'.alarms ≡ m.alarms
  pub context : m'.alarm_context ≡ m.alarm_context
  pub time : m'.cooltime ≡ m.cooltime

active-eq :
    (m : AlarmManager) (ch : ℤ) (o : Option ℕ)
    → find_key m.active_channels ch ≡ o
    → is_channel_active m ch ≡ (elim o [ none ↦ false | some t ↦ true ])
unfolding is_channel_active
active-eq m ch o e = rw (e, is_channel_active)

module _ (k : ℕ) (m : AlarmManager) (w : World) (f : Frame) (r : ℤ) (m' : AlarmManager)
    (w' : World) where
  Outcome-Untouched :
      (j : ℤ) → (f.channel_id ==ℤ j) ≡ false → Outcome k m w f r m' w' → Untouched m m' j
  unfolding cancel_alarm
  Outcome-Untouched j other (cancelled _ _ em _) = rw em (record {
    cooldown = refl;
    active = find-erase m.active_channels f.channel_id j ∙ rw other;
    rules = refl;
    context = refl;
    time = refl;
  })
  Outcome-Untouched j other (waiting _ _ _ em _) =
      rw em (record { cooldown = refl; active = refl; rules = refl; context = refl; time = refl })
  Outcome-Untouched j other (checked _ _ cs rel (quiet _ _ em _)) = rw em (record {
    cooldown = rel j ∙ rw other;
    active = refl;
    rules = refl;
    context = refl;
    time = refl;
  })
  Outcome-Untouched j other (checked _ _ cs rel (raises _ _ _ _ _ _ _ em _)) = rw em (record {
    cooldown = find-put cs f.channel_id f.start_now j ∙ rw other (rel j ∙ rw other);
    active = find-put m.active_channels f.channel_id f.active_now j ∙ rw other;
    rules = refl;
    context = refl;
    time = refl;
  })

  -- A call for one channel leaves the cooldown and the alarm of every other channel as they are, and
  -- the rules, the contexts and the cooltime too.
  process-Untouched :
      (j : ℤ)
      → (f.channel_id ==ℤ j) ≡ false
      → process_channel_alarms k m w f ≡ ok (r, m', w')
      → Untouched m m' j
  process-Untouched j other e = Outcome-Untouched j other (process-Outcome k m w f r m' w' e)

  Outcome-active :
      Outcome k m w f r m' w'
      → is_channel_active m' f.channel_id
        ≡ (if can_cancel m f then false else is_alarm r || is_channel_active m f.channel_id)
  unfolding cancel_alarm
  Outcome-active (cancelled staff er em _) =
      rw (staff, em)
        (active-eq _ _ none
          (find-erase m.active_channels f.channel_id f.channel_id ∙ rw (==ℤ_refl f.channel_id)))
  Outcome-active (waiting nobody _ er em _) = rw (nobody, er, em)
  Outcome-active (checked nobody _ cs rel (quiet _ er em _)) =
      rw (nobody, er, em) (unfold is_channel_active in refl)
  Outcome-active (checked nobody _ cs rel (raises _ _ _ _ _ _ er em _)) =
      rw (nobody, er, em)
        (active-eq _ _ (some f.active_now) (
          find-put m.active_channels f.channel_id f.active_now f.channel_id
          ∙ rw (==ℤ_refl f.channel_id)))

  -- After a call that returned the channel is active exactly if staff did not cancel, and the call
  -- raised an alarm or the channel was active before.
  pub process-active :
      process_channel_alarms k m w f ≡ ok (r, m', w')
      → is_channel_active m' f.channel_id
        ≡ (if can_cancel m f then false else is_alarm r || is_channel_active m f.channel_id)
  process-active e = Outcome-active (process-Outcome k m w f r m' w' e)

  Outcome-since :
      Outcome k m w f (pos 1) m' w' → find_key m'.active_channels f.channel_id ≡ some f.active_now
  Outcome-since (cancelled _ er _ _) = cc
  Outcome-since (waiting _ _ er _ _) = cc
  Outcome-since (checked _ _ _ _ (quiet _ er _ _)) = cc
  Outcome-since (checked _ _ _ _ (raises _ _ _ _ _ _ _ em _)) = rw (em, find-put, ==ℤ_refl)

can_cancel-grace :
    (m : AlarmManager) (g : Frame) (since : ℕ)
    → find_key m.active_channels g.channel_id ≡ some since
    → g.staff_now < since + grace_period
    → can_cancel m g ≡ false
unfolding can_cancel
can_cancel-grace m g since e early = rw (e, can_cancel) (ground arith)

-- For five seconds from its start an alarm cannot be cancelled: a call for the channel that reads the
-- clock before they are over leaves the channel active, whoever is in the picture.
raised-then-active :
    (k : ℕ) (m : AlarmManager) (w : World) (f g : Frame) (m₁ : AlarmManager) (w₁ : World) (r : ℤ)
    (m₂ : AlarmManager) (w₂ : World)
    → process_channel_alarms k m w f ≡ ok (pos 1, m₁, w₁)
    → g.channel_id ≡ f.channel_id
    → g.staff_now < f.active_now + grace_period
    → process_channel_alarms k m₁ w₁ g ≡ ok (r, m₂, w₂)
    → is_channel_active m₂ g.channel_id ≡ true
raised-then-active k m w f g m₁ w₁ r m₂ w₂ e same early e' =
    let since = Outcome-since k m w f (pos 1) m₁ w₁ (process-Outcome k m w f (pos 1) m₁ w₁ e) in
    let since' : find_key m₁.active_channels g.channel_id ≡ some f.active_now = rw same since in
    process-active k m₁ w₁ g r m₂ w₂ e'
    ∙ rw (can_cancel-grace m₁ g f.active_now since' early, active-eq m₁ g.channel_id _ since')
        (ground arith)
