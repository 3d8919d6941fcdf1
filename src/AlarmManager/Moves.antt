-- ===== src/AlarmManager/Moves.antt =====
-- src/alarm/alarmManager.cpp: what a step of a thread reads and changes of its channel, and of the others.
use multi_cctv_object_detect.Prelude.{
  ℕ, ℤ, ◌+◌, Bool, true, false, List, ◌≡◌, refl, sym, ap, subst, ◌∙◌, Option, none, some, Bytes, ok,
  err, ◌==ℤ◌, ◌&&◌, leb, ==ℤ_refl, find_key, put_key, erase_key, find-put, find-erase, Result,
}
use multi_cctv_object_detect.Alarm.{Alarm}
use multi_cctv_object_detect.AlarmManager.{
  AlarmManager, World, Frame, can_cancel, is_on_cooldown, first_rule, start_cooldown,
  is_staff_detected, grace_period,
}
use multi_cctv_object_detect.AlarmManager.Channels.{Untouched}
use multi_cctv_object_detect.AlarmManager.Entries.{
  same, cooldown-other, AgreeFor, cooldown-own, alike,
}
use multi_cctv_object_detect.AlarmManager.Steps.{
  Pc, before_staff, before_cancel, before_cancel_log, before_cooldown, before_rules, before_publish,
  before_save, before_count, before_store, before_reset, before_log, before_active, before_start,
  returned, failed, Point, after_staff, after_cooldown, after_first, after_texts, texts_of, move,
}

-- The call is for this channel.
abbrev pub IsFor : ℤ → Pc → Type 0
IsFor ch (before_staff f) = f.channel_id ≡ ch
IsFor ch (before_cancel f) = f.channel_id ≡ ch
IsFor ch (before_cancel_log f) = f.channel_id ≡ ch
IsFor ch (before_cooldown f) = f.channel_id ≡ ch
IsFor ch (before_rules f) = f.channel_id ≡ ch
IsFor ch (before_publish f a) = f.channel_id ≡ ch
IsFor ch (before_save f a) = f.channel_id ≡ ch
IsFor ch (before_count f a) = f.channel_id ≡ ch
IsFor ch (before_store f a) = f.channel_id ≡ ch
IsFor ch (before_reset f a) = f.channel_id ≡ ch
IsFor ch (before_log f a) = f.channel_id ≡ ch
IsFor ch (before_active f a) = f.channel_id ≡ ch
IsFor ch (before_start f a) = f.channel_id ≡ ch
IsFor ch (returned r) = Unit
IsFor ch (failed fault) = Unit

abbrev point : AlarmManager → World → Pc → ℕ → Point
point m w pc n = record { manager = m; world = w; pc = pc; loaded = n }

cooldown-IsFor : (ch : ℤ) (f : Frame) (b : Bool) → f.channel_id ≡ ch → IsFor ch (after_cooldown f b)
cooldown-IsFor ch f true e = tt
cooldown-IsFor ch f false e = e

staff-IsFor : (ch : ℤ) (f : Frame) (b : Bool) → f.channel_id ≡ ch → IsFor ch (after_staff f b)
staff-IsFor ch f true e = e
staff-IsFor ch f false e = e

first-IsFor :
    (ch : ℤ) (f : Frame) (r : Result (Option Alarm))
    → f.channel_id ≡ ch
    → IsFor ch (after_first f r)
first-IsFor ch f (err fault) e = tt
first-IsFor ch f (ok none) e = tt
first-IsFor ch f (ok (some a)) e = e

texts-IsFor :
    (ch : ℤ) (f : Frame) (a : Alarm) (r : Result (ℤ × Bytes))
    → f.channel_id ≡ ch
    → IsFor ch (after_texts f a r)
texts-IsFor ch f a (err fault) e = tt
texts-IsFor ch f a (ok texts) e = e

pub move-IsFor :
    (k : ℕ) (ch : ℤ) (m : AlarmManager) (w : World) (pc : Pc) (n : ℕ)
    → IsFor ch pc
    → IsFor ch (move k (point m w pc n)).pc
unfolding move
move-IsFor k ch m w (before_staff f) n h = staff-IsFor ch f (can_cancel m f) h
move-IsFor k ch m w (before_cancel f) n h = h
move-IsFor k ch m w (before_cancel_log f) n h = tt
move-IsFor k ch m w (before_cooldown f) n h =
    cooldown-IsFor ch f (is_on_cooldown m f.channel_id f.cooldown_now).0 h
move-IsFor k ch m w (before_rules f) n h = first-IsFor ch f (first_rule k f m.alarms) h
move-IsFor k ch m w (before_publish f a) n h = texts-IsFor ch f a (texts_of m.alarm_context a) h
move-IsFor k ch m w (before_save f a) n h = h
move-IsFor k ch m w (before_count f a) n h = h
move-IsFor k ch m w (before_store f a) n h = h
move-IsFor k ch m w (before_reset f a) n h = h
move-IsFor k ch m w (before_log f a) n h = h
move-IsFor k ch m w (before_active f a) n h = h
move-IsFor k ch m w (before_start f a) n h = tt
move-IsFor k ch m w (returned r) n h = tt
move-IsFor k ch m w (failed fault) n h = tt

-- A step for another channel.
module _ (k : ℕ) (ch j : ℤ) (other : (ch ==ℤ j) ≡ false) where
  away : (f : Frame) → f.channel_id ≡ ch → (f.channel_id ==ℤ j) ≡ false
  away f e = rw e other

  put_away :
      (f : Frame) (entries : List (ℤ × ℕ)) (t : ℕ)
      → f.channel_id ≡ ch
      → find_key (put_key entries f.channel_id t) j ≡ find_key entries j
  put_away f entries t e = find-put entries f.channel_id t j ∙ rw (away f e) refl

  erase_away :
      (f : Frame) (entries : List (ℤ × ℕ))
      → f.channel_id ≡ ch
      → find_key (erase_key entries f.channel_id) j ≡ find_key entries j
  erase_away f entries e = find-erase entries f.channel_id j ∙ rw (away f e) refl

  -- It leaves the entries of this one, and the rules.
  pub move-Untouched :
      (m : AlarmManager) (w : World) (pc : Pc) (n : ℕ)
      → IsFor ch pc
      → Untouched m (move k (point m w pc n)).manager j
  unfolding move start_cooldown
  move-Untouched m w (before_staff f) n h = same m j
  move-Untouched m w (before_cancel f) n h =
      alike _ _ _ _ m.id m.id (same m j) refl (erase_away f m.active_channels h)
  move-Untouched m w (before_cancel_log f) n h = same m j
  move-Untouched m w (before_cooldown f) n h =
      cooldown-other m f.channel_id f.cooldown_now j (away f h)
  move-Untouched m w (before_rules f) n h = same m j
  move-Untouched m w (before_publish f a) n h = same m j
  move-Untouched m w (before_save f a) n h = same m j
  move-Untouched m w (before_count f a) n h = same m j
  move-Untouched m w (before_store f a) n h = alike _ _ _ _ m.id _ (same m j) refl refl
  move-Untouched m w (before_reset f a) n h = alike _ _ _ _ m.id _ (same m j) refl refl
  move-Untouched m w (before_log f a) n h = same m j
  move-Untouched m w (before_active f a) n h =
      alike _ _ _ _ m.id m.id (same m j) refl (put_away f m.active_channels f.active_now h)
  move-Untouched m w (before_start f a) n h =
      alike _ _ _ _ m.id m.id (same m j) (put_away f m.channel_cooldowns f.start_now h) refl
  move-Untouched m w (returned r) n h = same m j
  move-Untouched m w (failed fault) n h = same m j

-- The points of two threads that are the same for their channel.
abbrev pub Agree : ℤ → Point → Point → Type 0
Agree ch p p' = (p.pc ≡ p'.pc) × Untouched p.manager p'.manager ch

-- A step of a call, on two managers that are the same for its channel.
module _ (k : ℕ) (ch : ℤ) (m m' : AlarmManager) (h : Untouched m m' ch) where
  put_own :
      (f : Frame) (entries entries' : List (ℤ × ℕ)) (t : ℕ)
      → f.channel_id ≡ ch
      → find_key (put_key entries' f.channel_id t) ch ≡ find_key (put_key entries f.channel_id t) ch
  put_own f entries entries' t e =
      rw e (find-put entries' ch t ch ∙ (rw (==ℤ_refl ch) refl ∙ sym (find-put entries ch t ch)))

  erase_own :
      (f : Frame) (entries entries' : List (ℤ × ℕ))
      → f.channel_id ≡ ch
      → find_key (erase_key entries' f.channel_id) ch ≡ find_key (erase_key entries f.channel_id) ch
  erase_own f entries entries' e =
      rw e (find-erase entries' ch ch ∙ (rw (==ℤ_refl ch) refl ∙ sym (find-erase entries ch ch)))

  can_cancel-own : (f : Frame) → f.channel_id ≡ ch → can_cancel m f ≡ can_cancel m' f
  unfolding can_cancel
  can_cancel-own f e =
      let own : find_key m.active_channels f.channel_id ≡ find_key m'.active_channels f.channel_id =
        rw e (sym h.active) in
      ap
        (λ (o : Option ℕ).
          is_staff_detected f.detected_classes
          && elim o [ none ↦ false | some since ↦ leb (since + grace_period) f.staff_now ])
        own

  pub move-Agree :
      (w w' : World) (pc : Pc) (n n' : ℕ)
      → IsFor ch pc
      → Agree ch (move k (point m w pc n)) (move k (point m' w' pc n'))
  unfolding move start_cooldown
  move-Agree w w' (before_staff f) n n' e = (ap (after_staff f) (can_cancel-own f e), h)
  move-Agree w w' (before_cancel f) n n' e = (
    refl,
    alike _ _ _ _ m.id m'.id h h.cooldown (erase_own f m.active_channels m'.active_channels e),
  )
  move-Agree w w' (before_cancel_log f) n n' e = (refl, h)
  move-Agree w w' (before_cooldown f) n n' e =
      let (b, h') =
        subst
          (λ j.
            AgreeFor ch (is_on_cooldown m j f.cooldown_now) (is_on_cooldown m' j f.cooldown_now))
          (sym e) (cooldown-own m m' ch f.cooldown_now h) in
      (ap (after_cooldown f) b, h')
  move-Agree w w' (before_rules f) n n' e =
      (ap (λ alarms. after_first f (first_rule k f alarms)) (sym h.rules), h)
  move-Agree w w' (before_publish f a) n n' e =
      (ap (λ context. after_texts f a (texts_of context a)) (sym h.context), h)
  move-Agree w w' (before_save f a) n n' e = (refl, h)
  move-Agree w w' (before_count f a) n n' e = (refl, h)
  move-Agree w w' (before_store f a) n n' e = (refl, alike _ _ _ _ _ _ h h.cooldown h.active)
  move-Agree w w' (before_reset f a) n n' e = (refl, alike _ _ _ _ _ _ h h.cooldown h.active)
  move-Agree w w' (before_log f a) n n' e = (refl, h)
  move-Agree w w' (before_active f a) n n' e = (
    refl,
    alike _ _ _ _ m.id m'.id h h.cooldown
        (put_own f m.active_channels m'.active_channels f.active_now e),
  )
  move-Agree w w' (before_start f a) n n' e = (
    refl,
    alike _ _ _ _ m.id m'.id h (put_own f m.channel_cooldowns m'.channel_cooldowns f.start_now e)
        h.active,
  )
  move-Agree w w' (returned r) n n' e = (refl, h)
  move-Agree w w' (failed fault) n n' e = (refl, h)
