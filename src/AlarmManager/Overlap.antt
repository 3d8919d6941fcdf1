-- ===== src/AlarmManager/Overlap.antt =====
-- src/alarm/alarmManager.cpp: two threads at `id`, which no lock guards.
use multi_cctv_object_detect.Prelude.{
  ℕ, ℤ, ◌==ℤ◌, subst, pos, ◌+◌, ◌%◌, ◌^◌, Bool, false, List, [], ◌∷◌, ◌++◌, ◌≡◌, refl, ap, ◌∙◌, sym,
  append-nil, Option, none, ◌-◌, put_key, some, Bytes, codes, ◌==◌, if◌then◌else◌, ok, arith,
}
use multi_cctv_object_detect.Alarm.{Alarm}
use multi_cctv_object_detect.Log.{push, alarm}
use multi_cctv_object_detect.Mqtt.{Message, alarm_payload, publish}
use multi_cctv_object_detect.AlarmManager.{
  AlarmManager, World, Frame, can_cancel, is_on_cooldown, first_rule, start_cooldown, next_id,
  append_message,
}
use multi_cctv_object_detect.AlarmManager.Channels.{Untouched}
use multi_cctv_object_detect.AlarmManager.Entries.{
  cooldown-other, cooldown-own, with_cooldowns, off_cooldown,
}
use multi_cctv_object_detect.AlarmManager.Steps.{
  Pc, before_staff, before_cooldown, before_rules, before_publish, before_save, before_count,
  before_store, before_reset, before_log, before_active, before_start, after_staff, after_cooldown,
  after_first, after_texts, sent_with, point_at, Point, Thread, System, pick, move, returned,
  texts_of, pick_all, calls_of,
}

-- The call for the frame cannot cancel, its channel is not on cooldown, and it finds the rule with its number
-- and context.
pub record FindsAlarm (k : ℕ) (m : AlarmManager) (f : Frame) (a : Alarm) (n : ℤ) (context : Bytes)
    : Type 0 where
  pub no_cancel : can_cancel m f ≡ false
  pub no_cooldown : (is_on_cooldown m f.channel_id f.cooldown_now).0 ≡ false
  pub rule : first_rule k f m.alarms ≡ ok (some a)
  pub texts : texts_of m.alarm_context a ≡ ok (n, context)

-- The threads 0 and 1 come to the message one behind the other, and go on from there in turn.
abbrev pub overlap : List ℕ
overlap = 0 ∷ 0 ∷ 0 ∷ 1 ∷ 1 ∷ 1 ∷ 0 ∷ 1 ∷ 0 ∷ 1 ∷ 0 ∷ 1 ∷ 0 ∷ 1 ∷ 0 ∷ 1 ∷ 0 ∷ 1 ∷ 0 ∷ 1 ∷ 0 ∷ 1 ∷ []

abbrev pub sent_for : World → AlarmManager → Frame → Alarm → ℤ → Bytes → List Message
sent_for w m f a n context = append_message [] (
    publish w.mutes w.mqtt f.is_connected (codes "CCTV/Alarm") (
      alarm_payload (record {
        id = m.id;
        camera_id = f.channel_id;
        alarm_id = n;
        destination = f.robot_destination;
        camera_description = f.camera_description;
        detected_ids = f.detected_classes;
        situation = a.alarm_sentence;
        message = context;
        created_at = f.created_at;
      })))

-- What two threads and the shared state are at.
record Sees (s : System) (m : AlarmManager) (w : World) (t u : Thread) : Type 0 where
  manager : s.manager ≡ m
  world : s.world ≡ w
  first : s.threads 0 ≡ t
  second : s.threads 1 ≡ u

abbrev at : AlarmManager → World → Thread → Point
at m w t = record { manager = m; world = w; pc = t.pc; loaded = t.loaded }

abbrev thread : Pc → ℕ → Thread
thread pc n = record { pc = pc; loaded = n }

module _ (k : ℕ) where
  pick_0 :
      {s : System} {m m' : AlarmManager} {w w' : World} {t t' u : Thread}
      → Sees s m w t u
      → move k (at m w t) ≡ at m' w' t'
      → Sees (pick k s 0) m' w' t' u
  pick_0 {s = s} {m' = m'} {w' = w'} {t' = t'} h e =
      let moved : move k (point_at s 0) ≡ at m' w' t' = rw (h.manager, h.world, h.first) e in
      record {
        manager = ap (λ (p : Point). p.manager) moved;
        world = ap (λ (p : Point). p.world) moved;
        first = ap (λ (p : Point). thread p.pc p.loaded) moved;
        second = h.second;
      }

  pick_1 :
      {s : System} {m m' : AlarmManager} {w w' : World} {t u u' : Thread}
      → Sees s m w t u
      → move k (at m w u) ≡ at m' w' u'
      → Sees (pick k s 1) m' w' t u'
  pick_1 {s = s} {m' = m'} {w' = w'} {u' = u'} h e =
      let moved : move k (point_at s 1) ≡ at m' w' u' = rw (h.manager, h.world, h.second) e in
      record {
        manager = ap (λ (p : Point). p.manager) moved;
        world = ap (λ (p : Point). p.world) moved;
        first = h.first;
        second = ap (λ (p : Point). thread p.pc p.loaded) moved;
      }

-- What a call finds does not depend on the cooldowns of the other channels.
second-FindsAlarm :
    (k : ℕ) (m : AlarmManager) (cs : List (ℤ × ℕ)) (f g : Frame) (b : Alarm) (n : ℤ)
    (context : Bytes)
    → (f.channel_id ==ℤ g.channel_id) ≡ false
    → is_on_cooldown m f.channel_id f.cooldown_now ≡ (false, with_cooldowns m cs)
    → FindsAlarm k m g b n context
    → FindsAlarm k (with_cooldowns m cs) g b n context
unfolding can_cancel
second-FindsAlarm k m cs f g b n context apart e h =
    let untouched : Untouched m (with_cooldowns m cs) g.channel_id =
      subst (λ (q : Bool × AlarmManager). Untouched m q.1 g.channel_id) e
        (cooldown-other m f.channel_id f.cooldown_now g.channel_id apart) in
    record {
      no_cancel = h.no_cancel;
      no_cooldown =
          sym (cooldown-own m (with_cooldowns m cs) g.channel_id g.cooldown_now untouched).0
          ∙ h.no_cooldown;
      rule = h.rule;
      texts = h.texts;
    }

module _ (k : ℕ) {m : AlarmManager} (w : World) {f : Frame} {a : Alarm} {n : ℤ} {context : Bytes}
    (h : FindsAlarm k m f a n context) where
  staff_lem : move k (at m w (thread (before_staff f) 0)) ≡ at m w (thread (before_cooldown f) 0)
  unfolding move
  staff_lem = ap (λ c. at m w (thread (after_staff f c) 0)) h.no_cancel

  cooldown_lem :
      (cs : List (ℤ × ℕ))
      → is_on_cooldown m f.channel_id f.cooldown_now ≡ (false, with_cooldowns m cs)
      → move k (at m w (thread (before_cooldown f) 0))
        ≡ at (with_cooldowns m cs) w (thread (before_rules f) 0)
  unfolding move
  cooldown_lem cs e = ap (λ (q : Bool × AlarmManager). at q.1 w (thread (after_cooldown f q.0) 0)) e

  rules_lem :
      (cs : List (ℤ × ℕ))
      → move k (at (with_cooldowns m cs) w (thread (before_rules f) 0))
        ≡ at (with_cooldowns m cs) w (thread (before_publish f a) 0)
  unfolding move
  rules_lem cs = ap (λ r. at (with_cooldowns m cs) w (thread (after_first f r) 0)) h.rule

  publish_lem :
      (cs : List (ℤ × ℕ))
      → move k (at (with_cooldowns m cs) w (thread (before_publish f a) 0))
        ≡ at
            (with_cooldowns m cs)
            (sent_with m w f a (ok (n, context)))
            (thread (before_save f a) 0)
  unfolding move
  publish_lem cs =
      ap (λ r. at (with_cooldowns m cs) (sent_with m w f a r) (thread (after_texts f a r) 0))
        h.texts

abbrev reset : ℕ → ℕ
reset n = if n == 2 ^ 32 - 1 then 0 else n

-- The steps that follow the message.
module _ (k : ℕ) (m : AlarmManager) (w : World) (f : Frame) (a : Alarm) (l : ℕ) where
  abbrev saved : World
  saved = record w { id_file = if f.id_file_opens then some m.id else w.id_file }

  abbrev logged : World
  logged = record w { log = push w.log f.log_time alarm a.alarm_sentence f.channel_id }

  abbrev stored : AlarmManager
  stored = record m { id = (l + 1) % 2 ^ 32 }

  abbrev was_reset : AlarmManager
  was_reset = record m { id = reset m.id }

  abbrev active : AlarmManager
  active = record m { active_channels = put_key m.active_channels f.channel_id f.active_now }

  save_lem : move k (at m w (thread (before_save f a) l)) ≡ at m saved (thread (before_count f a) l)
  unfolding move
  save_lem = refl

  count_lem :
      move k (at m w (thread (before_count f a) l)) ≡ at m w (thread (before_store f a) m.id)
  unfolding move
  count_lem = refl

  store_lem :
      move k (at m w (thread (before_store f a) l)) ≡ at stored w (thread (before_reset f a) l)
  unfolding move
  store_lem = refl

  reset_lem :
      move k (at m w (thread (before_reset f a) l)) ≡ at was_reset w (thread (before_log f a) l)
  unfolding move
  reset_lem = refl

  log_lem : move k (at m w (thread (before_log f a) l)) ≡ at m logged (thread (before_active f a) l)
  unfolding move
  log_lem = refl

  active_lem :
      move k (at m w (thread (before_active f a) l)) ≡ at active w (thread (before_start f a) l)
  unfolding move
  active_lem = refl

  start_lem :
      move k (at m w (thread (before_start f a) l))
      ≡ at (start_cooldown m f.channel_id f.start_now) w (thread (returned (pos 1)) l)
  unfolding move
  start_lem = refl

append_message-twice :
    (sent : List Message) (first second : Option Message)
    → append_message (append_message sent first) second
      ≡ sent ++ append_message [] first ++ append_message [] second
append_message-twice sent none none = sym (append-nil (sent ++ []) ∙ append-nil sent)
append_message-twice sent none (some y) = rw append-nil refl
append_message-twice sent (some x) none = sym (append-nil (sent ++ x ∷ []))
append_message-twice sent (some x) (some y) = refl

reset-reset : (n : ℕ) → reset (reset n) ≡ reset n
reset-reset n = ground arith

-- Whatever the threads' frames and the world are: where the calls of two channels that are not on cooldown
-- each find an alarm, there is an order of their steps in which both return 1 and both messages, where they
-- are published, carry the number id of before, each with the rest of its own call, while id advances by
-- one alarm only.
pub overlap-shares_id :
    (k : ℕ) (m : AlarmManager) (w : World) (frames : ℕ → Frame) (a b : Alarm) (n n' : ℤ)
    (context context' : Bytes)
    → ((frames 0).channel_id ==ℤ (frames 1).channel_id) ≡ false
    → FindsAlarm k m (frames 0) a n context
    → FindsAlarm k m (frames 1) b n' context'
    → (((pick_all k (calls_of m w frames) overlap).threads 0).pc ≡ returned (pos 1))
      × (((pick_all k (calls_of m w frames) overlap).threads 1).pc ≡ returned (pos 1))
      × ((pick_all k (calls_of m w frames) overlap).world.published
          ≡ w.published
            ++ sent_for w m (frames 0) a n context
            ++ sent_for w m (frames 1) b n' context')
      × ((pick_all k (calls_of m w frames) overlap).manager.id ≡ next_id m.id)
unfolding start_cooldown next_id
overlap-shares_id k m w frames a b n n' context context' apart h h' =
    let f = frames 0 in
    let g = frames 1 in
    let start : Sees (calls_of m w frames) m w (thread (before_staff f) 0)
        (thread (before_staff g) 0) =
      record { manager = refl; world = refl; first = refl; second = refl } in
    let w₁ = sent_with m w f a (ok (n, context)) in
    let (cs, e) = off_cooldown m f.channel_id f.cooldown_now h.no_cooldown in
    let h₁ = second-FindsAlarm k m cs f g b n' context' apart e h' in
    let (cs', e') = off_cooldown (with_cooldowns m cs) g.channel_id g.cooldown_now h₁.no_cooldown in
    let found_0 =
      pick_0 k (pick_0 k (pick_0 k start (staff_lem k w h)) (cooldown_lem k w h cs e))
        (rules_lem k w h cs) in
    let found_1 =
      pick_1 k (pick_1 k (pick_1 k found_0 (staff_lem k w h₁)) (cooldown_lem k w h₁ cs' e'))
        (rules_lem k w h₁ cs') in
    let sent = pick_1 k (pick_0 k found_1 (publish_lem k w h cs')) (publish_lem k w₁ h' cs') in
    let after_save = pick_1 k (pick_0 k sent (save_lem k _ _ f a _)) (save_lem k _ _ g b _) in
    let after_count =
      pick_1 k (pick_0 k after_save (count_lem k _ _ f a _)) (count_lem k _ _ g b _) in
    let after_store =
      pick_1 k (pick_0 k after_count (store_lem k _ _ f a _)) (store_lem k _ _ g b _) in
    let after_reset =
      pick_1 k (pick_0 k after_store (reset_lem k _ _ f a _)) (reset_lem k _ _ g b _) in
    let after_log = pick_1 k (pick_0 k after_reset (log_lem k _ _ f a _)) (log_lem k _ _ g b _) in
    let after_active =
      pick_1 k (pick_0 k after_log (active_lem k _ _ f a _)) (active_lem k _ _ g b _) in
    let end = pick_1 k (pick_0 k after_active (start_lem k _ _ f a _)) (start_lem k _ _ g b _) in
    (
      ap (λ (t : Thread). t.pc) end.first,
      ap (λ (t : Thread). t.pc) end.second,
      ap (λ (v : World). v.published) end.world ∙ append_message-twice w.published _ _,
      ap (λ (l : AlarmManager). l.id) end.manager ∙ reset-reset ((m.id + 1) % 2 ^ 32),
    )
