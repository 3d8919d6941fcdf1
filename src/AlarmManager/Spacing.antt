-- ===== src/AlarmManager/Spacing.antt =====
-- src/alarm/alarmManager.cpp: runs of calls for all channels, one after the other, and the times of
-- their alarms.
use multi_cctv_object_detect.Prelude.{
  ℕ, ℤ, pos, ◌≤◌, Bool, true, false, ◌&&◌, List, [], ◌∷◌, ◌≡◌, ◌⊎◌, inl, inr, refl, sym, subst, ◌∙◌,
  Option, none, some, arith, ok, find_key, put_key, find-put, ==ℤ_iff, ◌==ℤ◌, if◌then◌else◌,
  Bool-cases,
}
use multi_cctv_object_detect.AlarmManager.{
  AlarmManager, World, Frame, cancel_alarm, within, process_channel_alarms,
}
use multi_cctv_object_detect.AlarmManager.Cases.{OnCooldown, Released}
use multi_cctv_object_detect.AlarmManager.Outcome.{
  Outcome, cancelled, waiting, checked, quiet, raises, process-Outcome,
}

-- The calls so far with what they returned, newest first.
abbrev pub History : Type 0
History = List (Frame × ℤ)

abbrev pub is_alarm : ℤ → Bool
is_alarm r = r ==ℤ pos 1

-- When the channel's last alarm was raised.
abbrev last_alarm : ℤ → History → Option ℕ
last_alarm ch [] = none
last_alarm ch ((f, r) ∷ h) =
    let before = last_alarm ch h in
    if is_alarm r && f.channel_id ==ℤ ch then some f.start_now else before

-- The clock does not go back: a call reads it after all readings of the calls before it.
abbrev pub After : History → Frame → Type 0
After [] g = Unit
After ((f, r) ∷ h) g = f.start_now ≤ g.cooldown_now

abbrev pub InOrder : Frame → Type 0
InOrder f = f.cooldown_now ≤ f.start_now

pub data Run (k : ℕ) (m₀ : AlarmManager) (w₀ : World)
    : AlarmManager → World → History → Type 0 where
  start : Run k m₀ w₀ m₀ w₀ []
  call :
      {m : AlarmManager} {w : World} {h : History} (f : Frame) (r : ℤ) (m' : AlarmManager)
      (w' : World)
      → Run k m₀ w₀ m w h
      → InOrder f
      → After h f
      → process_channel_alarms k m w f ≡ ok (r, m', w')
      → Run k m₀ w₀ m' w' ((f, r) ∷ h)

-- At time `now` the cooltime since `t` has run out.
abbrev Expired : ℤ → Option ℕ → ℕ → Type 0
Expired cooltime none now = Unit
Expired cooltime (some t) now = within cooltime t now ≡ false

-- Every alarm comes when the cooltime since the last alarm of its channel has run out.
abbrev pub Spaced : ℤ → History → Type 0
Spaced cooltime [] = Unit
Spaced cooltime ((f, r) ∷ h) =
    (is_alarm r ≡ true → Expired cooltime (last_alarm f.channel_id h) f.cooldown_now)
    × Spaced cooltime h

-- The latest reading of the clock.
abbrev latest : History → ℕ
latest [] = 0
latest ((f, r) ∷ h) = f.start_now

-- The manager's entry for a channel is its last alarm, or that alarm's cooltime has run out.
abbrev Tracked : ℤ → Option ℕ → Option ℕ → ℕ → Type 0
Tracked cooltime entry last now = (entry ≡ last) ⊎ ((entry ≡ none) × Expired cooltime last now)

record Tracks (c : ℤ) (m : AlarmManager) (h : History) : Type 0 where
  same_time : m.cooltime ≡ c
  entries : (ch : ℤ) → Tracked c (find_key m.channel_cooldowns ch) (last_alarm ch h) (latest h)

Expired-mono : (c : ℤ) (o : Option ℕ) (n n' : ℕ) → n ≤ n' → Expired c o n → Expired c o n'
Expired-mono c none n n' le h = tt
Expired-mono c (some t) n n' le h = ground arith

After-latest : (h : History) (f : Frame) → After h f → latest h ≤ f.cooldown_now
After-latest [] f a = omega arith
After-latest ((g, r) ∷ h) f a = a

rested_entry :
    (c : ℤ) (m : AlarmManager) (f : Frame) (o : Option ℕ)
    → m.cooltime ≡ c
    → find_key m.channel_cooldowns f.channel_id ≡ o
    → (¬ OnCooldown m f.channel_id f.cooldown_now)
    → Expired c o f.cooldown_now
rested_entry c m f none same e off = tt
rested_entry c m f (some t) same e off = elim (Bool-cases (within c t f.cooldown_now)) [
  | inl early ↦ absurd (off (t, e, rw same early))
  | inr late ↦ late
]

Tracked-mono :
    (c : ℤ) (entry last : Option ℕ) (n n' : ℕ)
    → n ≤ n'
    → Tracked c entry last n
    → Tracked c entry last n'
Tracked-mono c entry last n n' le (inl e) = inl e
Tracked-mono c entry last n n' le (inr (e, x)) = inr (e, Expired-mono c last n n' le x)

module _ (c : ℤ) (m : AlarmManager) (h : History) (f : Frame) (t : Tracks c m h) (o : InOrder f)
    (a : After h f) where
  -- Where the channel is not on cooldown, the cooltime since its last alarm has run out.
  rested :
      (¬ OnCooldown m f.channel_id f.cooldown_now)
      → Expired c (last_alarm f.channel_id h) f.cooldown_now
  rested off = elim (t.entries f.channel_id) [
    | inl e ↦ rested_entry c m f (last_alarm f.channel_id h) t.same_time e off
    | inr (_, x) ↦ Expired-mono c _ _ _ (After-latest h f a) x
  ]

  kept : (ch : ℤ) → Tracked c (find_key m.channel_cooldowns ch) (last_alarm ch h) f.start_now
  kept ch = Tracked-mono c _ _ (latest h) _ (omega (arith, After-latest h f a)) (t.entries ch)

  -- After the entry of the frame's channel was released.
  released :
      (cs : List (ℤ × ℕ)) (ch : ℤ)
      → Released f.channel_id m.channel_cooldowns cs
      → (¬ OnCooldown m f.channel_id f.cooldown_now)
      → Tracked c (find_key cs ch) (last_alarm ch h) f.start_now
  released cs ch rel off = elim (Bool-cases (f.channel_id ==ℤ ch)) [
    | inl here ↦ inr (
      rel ch ∙ rw here,
      subst (λ (j : ℤ). Expired c (last_alarm j h) f.start_now) ((==ℤ_iff _ _).0 here)
          (Expired-mono c _ _ _ o (rested off)),
    )
    | inr away ↦
        subst (λ (e : Option ℕ). Tracked c e (last_alarm ch h) f.start_now) (sym (rel ch ∙ rw away))
          (kept ch)
  ]

  raised-Tracked :
      (cs : List (ℤ × ℕ)) (ch : ℤ)
      → Released f.channel_id m.channel_cooldowns cs
      → (¬ OnCooldown m f.channel_id f.cooldown_now)
      → Tracked c
          (find_key (put_key cs f.channel_id f.start_now) ch)
          (last_alarm ch ((f, pos 1) ∷ h))
          f.start_now
  raised-Tracked cs ch rel off = elim (Bool-cases (f.channel_id ==ℤ ch)) [
    | inl here ↦ inl (rw (find-put, here))
    | inr away ↦ rw (find-put, away) (released cs ch rel off)
  ]

  -- A call keeps the entries in step with the history, and an alarm is apart from the one before it.
  Outcome-Tracks :
      (k : ℕ) (w : World) (r : ℤ) (m' : AlarmManager) (w' : World)
      → Outcome k m w f r m' w'
      → Tracks c m' ((f, r) ∷ h)
        × (is_alarm r ≡ true → Expired c (last_alarm f.channel_id h) f.cooldown_now)
  unfolding cancel_alarm
  Outcome-Tracks k w r m' w' (cancelled _ er em _) =
      rw (er, em) (record { same_time = t.same_time; entries = kept }, λ e. cc)
  Outcome-Tracks k w r m' w' (waiting _ _ er em _) =
      rw (er, em) (record { same_time = t.same_time; entries = kept }, λ e. cc)
  Outcome-Tracks k w r m' w' (checked _ off cs rel (quiet _ er em _)) =
      rw (er, em)
        (record { same_time = t.same_time; entries = λ ch. released cs ch rel off }, λ e. cc)
  Outcome-Tracks k w r m' w' (checked _ off cs rel (raises _ _ _ _ _ _ er em _)) =
      rw (er, em)
        (
          record { same_time = t.same_time; entries = λ ch. raised-Tracked cs ch rel off },
          λ e. rested off,
        )

start-Tracks : (m : AlarmManager) → m.channel_cooldowns ≡ [] → Tracks m.cooltime m []
start-Tracks m e = record { same_time = refl; entries = λ ch. inl (rw e (unfold find_key in refl)) }

Run-Tracks :
    (k : ℕ) (m₀ : AlarmManager) (w₀ : World)
    → m₀.channel_cooldowns ≡ []
    → {m : AlarmManager} {w : World} {h : History} → Run k m₀ w₀ m w h
    → Tracks m₀.cooltime m h × Spaced m₀.cooltime h
Run-Tracks k m₀ w₀ e start = (start-Tracks m₀ e, tt)
Run-Tracks k m₀ w₀ e (call {m} {w} {h} f r m' w' run o a p) =
    let (t, s) = Run-Tracks k m₀ w₀ e run in
    let (t', x) =
      Outcome-Tracks m₀.cooltime m h f t o a k w r m' w' (process-Outcome k m w f r m' w' p) in
    (t', (x, s))

-- Whatever the calls for all channels, as long as the clock does not go back: from a manager with no
-- cooldown, an alarm is raised only when the cooltime since the last alarm of its channel is over.
pub Run-Spaced :
    (k : ℕ) (m₀ : AlarmManager) (w₀ : World)
    → m₀.channel_cooldowns ≡ []
    → {m : AlarmManager} {w : World} {h : History} → Run k m₀ w₀ m w h
    → Spaced m₀.cooltime h
Run-Spaced k m₀ w₀ e run = (Run-Tracks k m₀ w₀ e run).1
