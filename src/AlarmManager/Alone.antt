-- ===== src/AlarmManager/Alone.antt =====
-- src/alarm/alarmManager.cpp: the steps of a call that runs alone, and the call as a whole.
use multi_cctv_object_detect.Prelude.{
  ℕ, ℤ, pos, negsuc, Bool, true, false, ◌≡◌, inl, inr, refl, sym, ◌∙◌, Option, none, some, Bytes,
  ok, err, undefined, Bool-cases, >>=-eq-ok, Result, if◌then◌else◌,
}
use multi_cctv_object_detect.Alarm.{Alarm}
use multi_cctv_object_detect.AlarmManager.{
  AlarmManager, World, Frame, can_cancel, cancel_alarm, is_on_cooldown, first_rule, check_rules,
  after_rules, raise_alarm, start_cooldown, next_id, context_at, process_channel_alarms,
}
use multi_cctv_object_detect.AlarmManager.Raise.{raised, raised_world, raise_alarm-Raises}
use multi_cctv_object_detect.AlarmManager.Steps.{
  Pc, before_staff, before_cancel, before_rules, before_publish, returned, after_first,
  after_cooldown, Point, texts_of, move, moves,
}

-- The point where a call has returned.
abbrev pub IsDone : ℤ → AlarmManager → World → Point → Type 0
IsDone r m w p = (p.manager ≡ m) × (p.world ≡ w) × (p.pc ≡ returned r)

abbrev point : AlarmManager → World → Pc → ℕ → Point
point m w pc n = record { manager = m; world = w; pc = pc; loaded = n }

texts_of-ok :
    (m : AlarmManager) (a : Alarm) {alarm_id : ℤ} {message : Bytes}
    → a.alarm_id ≡ some alarm_id
    → context_at m.alarm_context alarm_id ≡ ok message
    → texts_of m.alarm_context a ≡ ok (alarm_id, message)
texts_of-ok m a e c = simp (e, c)

publish-IsDone :
    (k : ℕ) (m : AlarmManager) (w : World) (f : Frame) (a : Alarm) (n : ℕ) {alarm_id : ℤ}
    {message : Bytes}
    → texts_of m.alarm_context a ≡ ok (alarm_id, message)
    → IsDone
        (pos 1)
        (raised m f)
        (raised_world m w f a alarm_id message)
        (moves k 8 (point m w (before_publish f a) n))
unfolding move start_cooldown next_id
publish-IsDone k m w f a n e = rw e (refl, refl, refl)

abbrev result : ℤ → AlarmManager → World → Result (ℤ × AlarmManager × World)
result r m w = ok (r, m, w)

-- Of two results that are equal, the point of the one is the point of the other.
same-IsDone :
    {r r' : ℤ} {m m' : AlarmManager} {w w' : World} (p : Point)
    → result r m w ≡ result r' m' w'
    → IsDone r m w p
    → IsDone r' m' w' p
same-IsDone p e (em, ew, er) = (em ∙ cc, ew ∙ cc, er ∙ cc)

raised-result :
    (m : AlarmManager) (w : World) (f : Frame) (a : Alarm) {m' : AlarmManager} {w' : World}
    → raise_alarm m w f a ≡ ok (m', w')
    → after_rules m w f (some a) ≡ ok (pos 1, m', w')
raised-result m w f a e = rw e

-- What the loop over the rules leaves of the eight steps behind it.
rules-IsDone :
    (k : ℕ) (m : AlarmManager) (w : World) (f : Frame) (n : ℕ) (o : Option Alarm) (r : ℤ)
    (m' : AlarmManager) (w' : World)
    → after_rules m w f o ≡ ok (r, m', w')
    → IsDone r m' w' (moves k 8 (point m w (after_first f (ok o)) n))
unfolding move
rules-IsDone k m w f n none r m' w' e =
    same-IsDone (point m w (returned (pos 0)) n) e (refl, refl, refl)
rules-IsDone k m w f n (some a) r m' w' e = elim (raise_alarm-Raises m w f a) [
  | inl fault ↦ let bad : after_rules m w f (some a) ≡ err undefined = rw fault in absurd (cc)
  | inr (alarm_id, message, numbered, context, e₃) ↦
      same-IsDone (moves k 8 (point m w (before_publish f a) n))
        (sym (raised-result m w f a e₃) ∙ e)
        (publish-IsDone k m w f a n (texts_of-ok m a numbered context))
]

checks-IsDone :
    (k : ℕ) (m : AlarmManager) (w : World) (f : Frame) (n : ℕ) (r : ℤ) (m' : AlarmManager)
    (w' : World)
    → check_rules k m w f ≡ ok (r, m', w')
    → IsDone r m' w' (moves k 9 (point m w (before_rules f) n))
unfolding check_rules move
checks-IsDone k m w f n r m' w' e =
    let (o, scan, e') = >>=-eq-ok (first_rule k f m.alarms) _ e in
    rw scan (rules-IsDone k m w f n o r m' w' e')

cooldown-IsDone :
    (k : ℕ) (m : AlarmManager) (w : World) (f : Frame) (n : ℕ) (q : Bool × AlarmManager) (r : ℤ)
    (m' : AlarmManager) (w' : World)
    → (if q.0 then ok (negsuc 0, q.1, w) else check_rules k q.1 w f) ≡ ok (r, m', w')
    → IsDone r m' w' (moves k 9 (point q.1 w (after_cooldown f q.0) n))
unfolding move
cooldown-IsDone k m w f n (true, m₁) r m' w' e =
    same-IsDone (point m₁ w (returned (negsuc 0)) n) e (refl, refl, refl)
cooldown-IsDone k m w f n (false, m₁) r m' w' e = checks-IsDone k m₁ w f n r m' w' e

staff-IsDone :
    (k : ℕ) (m : AlarmManager) (w : World) (f : Frame) (n : ℕ) (r : ℤ) (m' : AlarmManager)
    (w' : World)
    → can_cancel m f ≡ true
    → process_channel_alarms k m w f ≡ ok (r, m', w')
    → IsDone r m' w' (moves k 11 (point m w (before_staff f) n))
unfolding process_channel_alarms move cancel_alarm
staff-IsDone k m w f n r m' w' staff e =
    rw staff
      (same-IsDone (moves k 10 (point m w (before_cancel f) n)) (rw staff at e) (refl, refl, refl))

nobody-IsDone :
    (k : ℕ) (m : AlarmManager) (w : World) (f : Frame) (n : ℕ) (r : ℤ) (m' : AlarmManager)
    (w' : World)
    → can_cancel m f ≡ false
    → process_channel_alarms k m w f ≡ ok (r, m', w')
    → IsDone r m' w' (moves k 11 (point m w (before_staff f) n))
unfolding process_channel_alarms move
nobody-IsDone k m w f n r m' w' nobody e = rw nobody (
    cooldown-IsDone k m w f n (is_on_cooldown m f.channel_id f.cooldown_now) r m' w'
      (rw nobody at e))

-- A call that returns does so in eleven steps, with the same result, and leaves the same.
pub process-IsDone :
    (k : ℕ) (m : AlarmManager) (w : World) (f : Frame) (n : ℕ) (r : ℤ) (m' : AlarmManager)
    (w' : World)
    → process_channel_alarms k m w f ≡ ok (r, m', w')
    → IsDone r m' w' (moves k 11 (point m w (before_staff f) n))
process-IsDone k m w f n r m' w' e = elim (Bool-cases (can_cancel m f)) [
  | inl staff ↦ staff-IsDone k m w f n r m' w' staff e
  | inr nobody ↦ nobody-IsDone k m w f n r m' w' nobody e
]
