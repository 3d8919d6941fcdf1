-- ===== src/AlarmManager/Raise.antt =====
-- src/alarm/alarmManager.cpp: what raising an alarm does to the manager and to the world.
use multi_cctv_object_detect.Prelude.{
  zero, suc, get_elem?, ℤ, pos, negsuc, ◌≡◌, ◌⊎◌, inl, inr, refl, Option, some, List, Bytes, codes,
  Result, ok, err, if◌then◌else◌, Option-cases, put_key, undefined,
}
use multi_cctv_object_detect.Alarm.{Alarm}
use multi_cctv_object_detect.Log.{push, alarm}
use multi_cctv_object_detect.Mqtt.{Message, alarm_payload, publish}
use multi_cctv_object_detect.AlarmManager.{
  AlarmManager, World, Frame, context_at, next_id, append_message, alarm_message, raise_alarm,
}

-- The manager after an alarm: the next number, the channel active and on cooldown.
abbrev pub raised : AlarmManager → Frame → AlarmManager
raised m f = record m {
  id = next_id m.id;
  active_channels = put_key m.active_channels f.channel_id f.active_now;
  channel_cooldowns = put_key m.channel_cooldowns f.channel_id f.start_now;
}

-- The message of the alarm, where the channel is not muted and the broker is connected.
abbrev pub alarm_sent : AlarmManager → World → Frame → ℤ → Bytes → Bytes → Option Message
alarm_sent m w f alarm_id situation message =
    publish w.mutes w.mqtt f.is_connected (codes "CCTV/Alarm")
      (alarm_payload (alarm_message m f alarm_id situation message))

abbrev pub raised_world : AlarmManager → World → Frame → Alarm → ℤ → Bytes → World
raised_world m w f a alarm_id message = record w {
  log = push w.log f.log_time alarm a.alarm_sentence f.channel_id;
  id_file = if f.id_file_opens then some m.id else w.id_file;
  published = append_message w.published (alarm_sent m w f alarm_id a.alarm_sentence message);
}

-- An alarm is raised, or one of the two reads before it is undefined.
abbrev pub Raises : AlarmManager → World → Frame → Alarm → Result (AlarmManager × World) → Type 0
Raises m w f a r =
    (r ≡ err undefined)
    ⊎ ((alarm_id : ℤ) × (message : Bytes) × (a.alarm_id ≡ some alarm_id)
        × (context_at m.alarm_context alarm_id ≡ ok message)
        × (r ≡ ok (raised m f, raised_world m w f a alarm_id message)))

pub raise_alarm-ok :
    (m : AlarmManager) (w : World) (f : Frame) (a : Alarm) (alarm_id : ℤ) (message : Bytes)
    → a.alarm_id ≡ some alarm_id
    → context_at m.alarm_context alarm_id ≡ ok message
    → raise_alarm m w f a ≡ ok (raised m f, raised_world m w f a alarm_id message)
unfolding raise_alarm
raise_alarm-ok m w f a alarm_id message e c = simp (e, c)

context_at-cases :
    (context : List Bytes) (n : ℤ)
    → (context_at context n ≡ err undefined)
      ⊎ ((message : Bytes) × (context_at context n ≡ ok message))
context_at-cases context (negsuc n) = inl refl
context_at-cases context (pos zero) = inl refl
context_at-cases context (pos (suc n)) = elim (Option-cases (get_elem? context n)) [
  | inl e ↦ inl (rw e)
  | inr (message, e) ↦ inr (message, rw e)
]

pub raise_alarm-Raises :
    (m : AlarmManager) (w : World) (f : Frame) (a : Alarm) → Raises m w f a (raise_alarm m w f a)
raise_alarm-Raises m w f a = elim (Option-cases a.alarm_id) [
  | inl e ↦ inl (unfold raise_alarm in simp e)
  | inr (alarm_id, e) ↦ elim (context_at-cases m.alarm_context alarm_id) [
    | inl c ↦ inl (unfold raise_alarm in simp (e, c))
    | inr (message, c) ↦ inr (alarm_id, message, e, c, raise_alarm-ok m w f a alarm_id message e c)
  ]
]
