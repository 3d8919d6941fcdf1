-- ===== src/AlarmManager.antt =====
-- src/alarm/alarmManager.cpp: the rules, the cooldowns and the active alarms of the channels, and
-- `process_channel_alarms`, which a channel's thread calls for every frame.
-- Times are nanoseconds of the steady clock. Each reading of it is a field of `Frame`, as are the
-- texts of the time, the connection's answer and whether the file id.bin opens. What the calls change
-- outside of the manager (log, id.bin, messages) is the record `World`. Output to cout is left out.
pub mod Rules
pub mod Cases
pub mod Raise
pub mod Outcome
pub mod Decides
pub mod Loaded
pub mod Cooldown
pub mod Spacing
pub mod Channels
pub mod Ids
pub mod Steps
pub mod Alone
pub mod Entries
pub mod Moves
pub mod Interleaved
pub mod Overlap
use multi_cctv_object_detect.Prelude.{
  ℕ, zero, suc, ℤ, pos, negsuc, pos_part, neg_part, ◌+◌, ◌-◌, ◌*◌, ◌%◌, ◌^◌, Bool, true, false,
  ◌&&◌, List, [], ◌∷◌, ◌++◌, Option, none, some, Bytes, codes, to_string, get_elem?, ◌==ℤ◌, ◌==◌,
  ltb, leb, if◌then◌else◌, find_key, put_key, erase_key, Result, ok, err, undefined, or_undefined,
  ◌>>=◌,
}
use multi_cctv_object_detect.Alarm.{
  Alarm, DetectedHistoryItem, set_id, get_target_channel, get_alarm_id, define_alarm,
}
use multi_cctv_object_detect.AlarmFile.{read_conf}
use multi_cctv_object_detect.Log.{Log, push, info, alarm}
use multi_cctv_object_detect.Mqtt.{MqttManager, Message, AlarmMessage, alarm_payload, publish}

abbrev pub staff_class_id : ℤ
staff_class_id = pos 10

abbrev pub second : ℕ
second = 1_000_000_000

-- `ALARM_GRACE_PERIOD_SEC`, in nanoseconds.
abbrev pub grace_period : ℕ
grace_period = 5 * second

-- `persist_time` is the float's bit pattern: nothing reads it.
pub record AlarmManager : Type 0 where
  pub alarms : List Alarm
  pub alarm_context : List Bytes
  pub channel_cooldowns : List (ℤ × ℕ)
  pub active_channels : List (ℤ × ℕ)
  pub persist_time : ℕ
  pub cooltime : ℤ
  pub id : ℕ

-- The constructors read the last id from id.bin, where it opens.
abbrev pub new_manager : Option ℕ → ℕ → ℤ → AlarmManager
new_manager id_file persist_time cooltime = record {
  alarms = [];
  alarm_context = [];
  channel_cooldowns = [];
  active_channels = [];
  persist_time = persist_time;
  cooltime = cooltime;
  id = elim id_file [ none ↦ 0 | some n ↦ n ];
}

abbrev pub set_cooltime : AlarmManager → ℤ → AlarmManager
set_cooltime m cooltime = record m { cooltime = cooltime }

abbrev pub set_persist_time : AlarmManager → ℕ → AlarmManager
set_persist_time m persist_time = record m { persist_time = persist_time }

-- What lies outside of the manager: `id_file` is the number in id.bin, `published` the messages
-- handed to the client, oldest first.
pub record World : Type 0 where
  pub mutes : List Bool
  pub mqtt : MqttManager
  pub log : Log
  pub id_file : Option ℕ
  pub published : List Message

-- A call of `process_channel_alarms` with what it reads on the way: the clock at the four places
-- where the source asks for it, in this order.
pub record Frame : Type 0 where
  pub channel_id : ℤ
  pub detected_classes : List ℤ
  pub history : List DetectedHistoryItem
  pub camera_description : Bytes
  pub robot_destination : Bytes
  pub staff_now : ℕ
  pub cooldown_now : ℕ
  pub active_now : ℕ
  pub start_now : ℕ
  pub created_at : Bytes
  pub log_time : Bytes
  pub is_connected : Bool
  pub id_file_opens : Bool

unfoldable pub start_cooldown : AlarmManager → ℤ → ℕ → AlarmManager
start_cooldown m channel_id now = record m {
  channel_cooldowns = put_key m.channel_cooldowns channel_id now;
}

-- `now - since < std::chrono::seconds(cooltime)`, for a cooltime of either sign.
abbrev pub within : ℤ → ℕ → ℕ → Bool
within cooltime since now =
    ltb (now + neg_part cooltime * second) (since + pos_part cooltime * second)

-- An entry that has run out is erased.
unfoldable pub is_on_cooldown : AlarmManager → ℤ → ℕ → Bool × AlarmManager
is_on_cooldown m channel_id now = elim (find_key m.channel_cooldowns channel_id) [
  | none ↦ (false, m)
  | some since ↦
      if within m.cooltime since now
      then (true, m)
      else (false, record m { channel_cooldowns = erase_key m.channel_cooldowns channel_id })
]

unfoldable pub is_staff_detected : List ℤ → Bool
is_staff_detected [] = false
is_staff_detected (cls ∷ rest) =
    let others = is_staff_detected rest in if cls ==ℤ staff_class_id then true else others

unfoldable pub is_channel_active : AlarmManager → ℤ → Bool
is_channel_active m channel_id = elim (find_key m.active_channels channel_id) [
  | none ↦ false
  | some t ↦ true
]

unfoldable pub cancel_alarm : AlarmManager → World → ℤ → Bytes → AlarmManager × World
cancel_alarm m w channel_id log_time = (
  record m { active_channels = erase_key m.active_channels channel_id },
  record w {
    log =
        push w.log log_time info
          (codes "Alarm cancelled by staff detection (channel "
            ++ (to_string channel_id ++ codes ")"))
          channel_id;
  },
)

-- `alarm.set_id(alarm_id_counter++)` over the alarms.
unfoldable pub number_alarms : ℕ → List Alarm → List Alarm
number_alarms n [] = []
number_alarms n (a ∷ alarms) = set_id a (pos n) ∷ number_alarms (suc n) alarms

unfoldable pub load_alarms_from_file : AlarmManager → Option Bytes → Result AlarmManager
unfolding number_alarms
load_alarms_from_file m file = do
  (status, alarms) ← read_conf file m.alarms
  ok (record m { alarms = number_alarms 1 alarms })

-- `alarm_context[alarm_id - 1]`, with no test of the index.
abbrev pub context_at : List Bytes → ℤ → Result Bytes
context_at context (pos (suc n)) = or_undefined (get_elem? context n)
context_at context n = err undefined

-- `id++` on `uint32_t`, and the reset at its last value.
unfoldable pub next_id : ℕ → ℕ
next_id id = let n = (id + 1) % 2 ^ 32 in if n == 2 ^ 32 - 1 then 0 else n

abbrev pub append_message : List Message → Option Message → List Message
append_message sent none = sent
append_message sent (some msg) = sent ++ msg ∷ []

abbrev pub alarm_message : AlarmManager → Frame → ℤ → Bytes → Bytes → AlarmMessage
alarm_message m f alarm_id situation message = record {
  id = m.id;
  camera_id = f.channel_id;
  alarm_id = alarm_id;
  destination = f.robot_destination;
  camera_description = f.camera_description;
  detected_ids = f.detected_classes;
  situation = situation;
  message = message;
  created_at = f.created_at;
}

-- What follows in the loop once a rule's condition holds.
unfoldable pub raise_alarm : AlarmManager → World → Frame → Alarm → Result (AlarmManager × World)
unfolding start_cooldown
raise_alarm m w f a = do
  alarm_id ← get_alarm_id a
  message ← context_at m.alarm_context alarm_id
  let payload = alarm_payload (alarm_message m f alarm_id a.alarm_sentence message)
  let sent = publish w.mutes w.mqtt f.is_connected (codes "CCTV/Alarm") payload
  let m' = record m {
    id = next_id m.id;
    active_channels = put_key m.active_channels f.channel_id f.active_now;
  }
  ok (
    start_cooldown m' f.channel_id f.start_now,
    record w {
      log = push w.log f.log_time alarm a.alarm_sentence f.channel_id;
      id_file = if f.id_file_opens then some m.id else w.id_file;
      published = append_message w.published sent;
    },
  )

-- Whether a rule is meant for the channel and its condition holds.
unfoldable pub rule_holds : ℕ → Frame → Alarm → Result Bool
rule_holds frames_to_check f a = do
  target ← get_target_channel a
  if target ==ℤ f.channel_id then define_alarm frames_to_check a.condition f.history else ok false

-- The loop over the rules: the first that holds, if any.
unfoldable pub first_rule : ℕ → Frame → List Alarm → Result (Option Alarm)
first_rule frames_to_check f [] = ok none
first_rule frames_to_check f (a ∷ alarms) =
    let rest = first_rule frames_to_check f alarms in
    (rule_holds frames_to_check f a >>= λ b. if b then ok (some a) else rest)

-- What the loop does for that rule, and after it.
abbrev pub after_rules :
    AlarmManager → World → Frame → Option Alarm → Result (ℤ × AlarmManager × World)
after_rules m w f none = ok (pos 0, m, w)
after_rules m w f (some a) = raise_alarm m w f a >>= λ (m', w'). ok (pos 1, m', w')

unfoldable pub check_rules : ℕ → AlarmManager → World → Frame → Result (ℤ × AlarmManager × World)
check_rules frames_to_check m w f = first_rule frames_to_check f m.alarms >>= after_rules m w f

-- `can_cancel_active`
unfoldable pub can_cancel : AlarmManager → Frame → Bool
can_cancel m f =
    is_staff_detected f.detected_classes && elim (find_key m.active_channels f.channel_id) [
      | none ↦ false
      | some since ↦ leb (since + grace_period) f.staff_now
    ]

unfoldable pub process_channel_alarms :
    ℕ → AlarmManager → World → Frame → Result (ℤ × AlarmManager × World)
process_channel_alarms frames_to_check m w f =
    if can_cancel m f
    then (let (m', w') = cancel_alarm m w f.channel_id f.log_time in ok (pos 0, m', w'))
    else (let (on_cooldown, m') = is_on_cooldown m f.channel_id f.cooldown_now in
        if on_cooldown then ok (negsuc 0, m', w) else check_rules frames_to_check m' w f)
