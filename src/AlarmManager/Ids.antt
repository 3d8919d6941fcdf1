-- ===== src/AlarmManager/Ids.antt =====
-- src/alarm/alarmManager.cpp: the numbers of the alarms, and what a call publishes.
use multi_cctv_object_detect.Prelude.{
  ℕ, ℤ, pos, ◌+◌, ◌-◌, ◌%◌, ◌^◌, ◌<◌, true, false, [], ◌∷◌, ◌++◌, ◌≡◌, ◌≢◌, refl, inl, inr,
  Option-cases, none, some, Bytes, codes, arith, ok, if◌then◌else◌, Bool-cases,
}
use multi_cctv_object_detect.Alarm.{Alarm}
use multi_cctv_object_detect.Mqtt.{Client, Payload, alarm_payload, is_muted, publish}
use multi_cctv_object_detect.AlarmManager.{
  AlarmManager, World, Frame, new_manager, next_id, cancel_alarm, alarm_message, first_rule,
  context_at, process_channel_alarms,
}
use multi_cctv_object_detect.AlarmManager.Raise.{alarm_sent}
use multi_cctv_object_detect.AlarmManager.Spacing.{Run, start, call, History, is_alarm}
use multi_cctv_object_detect.AlarmManager.Outcome.{
  Outcome, cancelled, waiting, checked, quiet, raises, process-Outcome,
}

-- The numbers in use: all of `uint32_t` but the last.
abbrev pub id_count : ℕ
id_count = 2 ^ 32 - 1

next_id-mod : (n : ℕ) → n < id_count → next_id n ≡ (n + 1) % id_count
unfolding next_id
next_id-mod n h = ground arith

abbrev alarm_count : History → ℕ
alarm_count [] = 0
alarm_count ((f, r) ∷ h) = if is_alarm r then alarm_count h + 1 else alarm_count h

module _ (k : ℕ) (m : AlarmManager) (w : World) (f : Frame) (r : ℤ) (m' : AlarmManager)
    (w' : World) where
  Outcome-id : Outcome k m w f r m' w' → m'.id ≡ (if is_alarm r then next_id m.id else m.id)
  unfolding cancel_alarm
  Outcome-id (cancelled _ er em _) = rw (er, em)
  Outcome-id (waiting _ _ er em _) = rw (er, em)
  Outcome-id (checked _ _ _ _ (quiet _ er em _)) = rw (er, em)
  Outcome-id (checked _ _ _ _ (raises _ _ _ _ _ _ er em _)) = rw (er, em)

-- Over any run of calls in which the clock does not go back, from a manager whose next number is less
-- than 2^32 - 1, the next number is the first one plus the count of the alarms, modulo 2^32 - 1.
pub Run-id :
    (k : ℕ) (m₀ : AlarmManager) (w₀ : World)
    → m₀.id < id_count
    → {m : AlarmManager} {w : World} {h : History} → Run k m₀ w₀ m w h
    → m.id ≡ (m₀.id + alarm_count h) % id_count
Run-id k m₀ w₀ small start = omega arith
Run-id k m₀ w₀ small (call {m} {w} {h} f r m' w' run o a p) =
    let before = Run-id k m₀ w₀ small run in
    let after = Outcome-id k m w f r m' w' (process-Outcome k m w f r m' w' p) in
    elim (Bool-cases (is_alarm r)) [
      | inl raised_one ↦
          rw raised_one (
            omega (arith, rw raised_one at after, next_id-mod m.id (omega (arith, before)), before))
      | inr none_raised ↦ rw none_raised (omega (arith, rw none_raised at after, before))
    ]

-- What a call publishes and writes to id.bin, when it returns.
record Publishes (k : ℕ) (m : AlarmManager) (w : World) (f : Frame) (r : ℤ) (w' : World)
    : Type 0 where
  silent : r ≢ pos 1 → (w'.published ≡ w.published) × (w'.id_file ≡ w.id_file)
  muted : is_muted w.mutes f.channel_id ≡ true → w'.published ≡ w.published
  offline : f.is_connected ≡ false → w'.published ≡ w.published
  sent :
      r ≡ pos 1
      → is_muted w.mutes f.channel_id ≡ false
      → f.is_connected ≡ true
      → (c : Client) → w.mqtt.client_ ≡ some c
      → (a : Alarm) × (alarm_id : ℤ) × (message : Bytes) × (first_rule k f m.alarms ≡ ok (some a))
        × (a.alarm_id ≡ some alarm_id)
        × (context_at m.alarm_context alarm_id ≡ ok message)
        × (w'.published
            ≡ w.published
              ++ record {
                topic = codes "CCTV/Alarm";
                payload = alarm_payload (record {
                  id = m.id;
                  camera_id = f.channel_id;
                  alarm_id = alarm_id;
                  destination = f.robot_destination;
                  camera_description = f.camera_description;
                  detected_ids = f.detected_classes;
                  situation = a.alarm_sentence;
                  message = message;
                  created_at = f.created_at;
                });
                qos = 1;
              }
                ∷ [])
  saved : r ≡ pos 1 → f.id_file_opens ≡ true → w'.id_file ≡ some m.id

module _ (m : AlarmManager) (w : World) (f : Frame) (alarm_id : ℤ) (situation message : Bytes) where
  abbrev payload : Payload
  payload = alarm_payload (alarm_message m f alarm_id situation message)

  sent_muted :
      is_muted w.mutes f.channel_id ≡ true → alarm_sent m w f alarm_id situation message ≡ none
  unfolding publish
  sent_muted e = elim (Option-cases w.mqtt.client_) [
    | inl no_client ↦ rw (no_client, publish)
    | inr (c, client) ↦ elim (Bool-cases f.is_connected) [
      | inl on ↦ rw (client, publish, e, on)
      | inr off ↦ rw (client, publish, e, off)
    ]
  ]

  sent_offline : f.is_connected ≡ false → alarm_sent m w f alarm_id situation message ≡ none
  unfolding publish
  sent_offline e = elim (Option-cases w.mqtt.client_) [
    | inl no_client ↦ rw (no_client, publish)
    | inr (c, client) ↦ rw (client, publish, e)
  ]

  sent_online :
      is_muted w.mutes f.channel_id ≡ false
      → f.is_connected ≡ true
      → (c : Client) → w.mqtt.client_ ≡ some c
      → alarm_sent m w f alarm_id situation message
        ≡ some (record { topic = codes "CCTV/Alarm"; payload = payload; qos = 1 })
  unfolding publish
  sent_online audible online c e = rw (e, publish, audible, online)

module _ (k : ℕ) (m : AlarmManager) (w : World) (f : Frame) (r : ℤ) (m' : AlarmManager)
    (w' : World) where
  unchanged :
      r ≢ pos 1 → w'.published ≡ w.published → w'.id_file ≡ w.id_file → Publishes k m w f r w'
  unchanged other e e' = record {
    silent = λ _. (e, e');
    muted = λ _. e;
    offline = λ _. e;
    sent = λ h _ _ c _. absurd (other h);
    saved = λ h _. absurd (other h);
  }

  Outcome-Publishes : Outcome k m w f r m' w' → Publishes k m w f r w'
  unfolding cancel_alarm
  Outcome-Publishes (cancelled _ er _ ew) = unchanged (λ e. cc) (rw ew) (rw ew)
  Outcome-Publishes (waiting _ _ er _ ew) = unchanged (λ e. cc) (rw ew) (rw ew)
  Outcome-Publishes (checked _ _ _ _ (quiet _ er _ ew)) = unchanged (λ e. cc) (rw ew) (rw ew)
  Outcome-Publishes (checked _ _ cs _ (raises a scan alarm_id message numbered said er _ ew)) =
      record {
        silent = λ other. absurd (other er);
        muted = λ e. rw (ew, sent_muted m w f alarm_id a.alarm_sentence message e);
        offline = λ e. rw (ew, sent_offline m w f alarm_id a.alarm_sentence message e);
        sent = λ _ audible online c e. (
          a,
          alarm_id,
          message,
          scan,
          numbered,
          said,
          rw (ew, sent_online m w f alarm_id a.alarm_sentence message audible online c e),
        );
        saved = λ _ e. rw (ew, e);
      }

process-Publishes :
    (k : ℕ) (m : AlarmManager) (w : World) (f : Frame) (r : ℤ) (m' : AlarmManager) (w' : World)
    → process_channel_alarms k m w f ≡ ok (r, m', w')
    → Publishes k m w f r w'
process-Publishes k m w f r m' w' e =
    Outcome-Publishes k m w f r m' w' (process-Outcome k m w f r m' w' e)

-- A call that raises an alarm for a channel that is not muted, over a connected client, publishes one
-- message more, on "CCTV/Alarm" with quality of service 1. It is about the first rule that fires and carries
-- the number that the manager had before the call, the channel, its destination, its description, the
-- classes in the frame and the text of the time, with the rule's number, its sentence, and the context
-- that stands at the rule's number.
pub process-sends :
    (k : ℕ) (m : AlarmManager) (w : World) (f : Frame) (m' : AlarmManager) (w' : World) (c : Client)
    → process_channel_alarms k m w f ≡ ok (pos 1, m', w')
    → is_muted w.mutes f.channel_id ≡ false
    → f.is_connected ≡ true
    → w.mqtt.client_ ≡ some c
    → (a : Alarm) × (alarm_id : ℤ) × (message : Bytes) × (first_rule k f m.alarms ≡ ok (some a))
      × (a.alarm_id ≡ some alarm_id)
      × (context_at m.alarm_context alarm_id ≡ ok message)
      × (w'.published
          ≡ w.published
            ++ record {
              topic = codes "CCTV/Alarm";
              payload = alarm_payload (record {
                id = m.id;
                camera_id = f.channel_id;
                alarm_id = alarm_id;
                destination = f.robot_destination;
                camera_description = f.camera_description;
                detected_ids = f.detected_classes;
                situation = a.alarm_sentence;
                message = message;
                created_at = f.created_at;
              });
              qos = 1;
            }
              ∷ [])
process-sends k m w f m' w' c e audible online client =
    (process-Publishes k m w f (pos 1) m' w' e).sent refl audible online c client

-- While a channel is muted no call for it publishes anything, whatever the call returns.
pub process-muted :
    (k : ℕ) (m : AlarmManager) (w : World) (f : Frame) (r : ℤ) (m' : AlarmManager) (w' : World)
    → process_channel_alarms k m w f ≡ ok (r, m', w')
    → is_muted w.mutes f.channel_id ≡ true
    → w'.published ≡ w.published
process-muted k m w f r m' w' e silenced = (process-Publishes k m w f r m' w' e).muted silenced

-- A call that does not raise an alarm publishes nothing and leaves id.bin alone.
process-silent :
    (k : ℕ) (m : AlarmManager) (w : World) (f : Frame) (r : ℤ) (m' : AlarmManager) (w' : World)
    → process_channel_alarms k m w f ≡ ok (r, m', w')
    → r ≢ pos 1
    → (w'.published ≡ w.published) × (w'.id_file ≡ w.id_file)
process-silent k m w f r m' w' e other = (process-Publishes k m w f r m' w' e).silent other

-- Where the file id.bin opened for an alarm, a manager started from that file after it begins with
-- the number of this alarm again.
pub restart-reuses_id :
    (k : ℕ) (m : AlarmManager) (w : World) (f : Frame) (m' : AlarmManager) (w' : World)
    (persist_time : ℕ) (cooltime : ℤ)
    → process_channel_alarms k m w f ≡ ok (pos 1, m', w')
    → f.id_file_opens ≡ true
    → (new_manager w'.id_file persist_time cooltime).id ≡ m.id
restart-reuses_id k m w f m' w' persist_time cooltime e opens =
    let saved = (process-Publishes k m w f (pos 1) m' w' e).saved refl opens in rw saved
