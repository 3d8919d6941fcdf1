-- ===== src/AlarmManager/Steps.antt =====
-- src/alarm/alarmManager.cpp: `process_channel_alarms` of several threads, a step at a time.
-- A step is what a thread does between two places where another can come in between: a part under one
-- of the locks, a call of `push`, the message with its publishing, the writing of id.bin, the load and the
-- store of `id++`, the reset of `id`. The rules and their contexts are only read, so that the loop over the
-- rules is one step.
use multi_cctv_object_detect.Prelude.{
  ℕ, zero, suc, ℤ, pos, negsuc, ◌+◌, ◌-◌, ◌%◌, ◌^◌, Bool, List, [], ◌∷◌, Option, none, some, Bytes,
  codes, ◌==◌, erase_key, put_key, if◌then◌else◌, Fault, Result, ok, err, ◌>>=◌,
}
use multi_cctv_object_detect.Alarm.{Alarm, get_alarm_id}
use multi_cctv_object_detect.Log.{push, alarm}
use multi_cctv_object_detect.Mqtt.{alarm_payload, publish}
use multi_cctv_object_detect.AlarmManager.{
  AlarmManager, World, Frame, can_cancel, cancel_alarm, is_on_cooldown, first_rule, context_at,
  append_message, alarm_message, start_cooldown,
}

-- Where a call stands, before the step that it takes next.
pub data Pc : Type 0 where
  before_staff before_cancel before_cancel_log before_cooldown before_rules : Frame → Pc
  before_publish before_save before_count before_store before_reset before_log before_active
        before_start :
      Frame → Alarm → Pc
  returned : ℤ → Pc
  failed : Fault → Pc

-- A thread, with the value of `id` that it has loaded, and what all threads share.
pub record Point : Type 0 where
  pub manager : AlarmManager
  pub world : World
  pub pc : Pc
  pub loaded : ℕ

abbrev pub after_staff : Frame → Bool → Pc
after_staff f cancel = if cancel then before_cancel f else before_cooldown f

abbrev pub after_cooldown : Frame → Bool → Pc
after_cooldown f on_cooldown = if on_cooldown then returned (negsuc 0) else before_rules f

abbrev pub after_first : Frame → Result (Option Alarm) → Pc
after_first f (err fault) = failed fault
after_first f (ok none) = returned (pos 0)
after_first f (ok (some a)) = before_publish f a

-- The number and the context of the rule that fires.
abbrev pub texts_of : List Bytes → Alarm → Result (ℤ × Bytes)
texts_of alarm_context a = do
  alarm_id ← get_alarm_id a
  message ← context_at alarm_context alarm_id
  ok (alarm_id, message)

abbrev pub after_texts : Frame → Alarm → Result (ℤ × Bytes) → Pc
after_texts f a (err fault) = failed fault
after_texts f a (ok texts) = before_save f a

abbrev pub sent_with : AlarmManager → World → Frame → Alarm → Result (ℤ × Bytes) → World
sent_with m w f a (err fault) = w
sent_with m w f a (ok (alarm_id, message)) = record w {
  published = append_message w.published (
      publish w.mutes w.mqtt f.is_connected (codes "CCTV/Alarm")
        (alarm_payload (alarm_message m f alarm_id a.alarm_sentence message)));
}

unfoldable pub move : ℕ → Point → Point
move k p = elim p.pc [
  | before_staff f ↦ record p { pc = after_staff f (can_cancel p.manager f) }
  | before_cancel f ↦ record p {
    manager = record p.manager {
      active_channels = erase_key p.manager.active_channels f.channel_id;
    };
    pc = before_cancel_log f;
  }
  | before_cancel_log f ↦ record p {
    world = (cancel_alarm p.manager p.world f.channel_id f.log_time).1;
    pc = returned (pos 0);
  }
  | before_cooldown f ↦
      let (on_cooldown, m) = is_on_cooldown p.manager f.channel_id f.cooldown_now in
      record p { manager = m; pc = after_cooldown f on_cooldown }
  | before_rules f ↦ record p { pc = after_first f (first_rule k f p.manager.alarms) }
  | before_publish f a ↦ record p {
    world = sent_with p.manager p.world f a (texts_of p.manager.alarm_context a);
    pc = after_texts f a (texts_of p.manager.alarm_context a);
  }
  | before_save f a ↦ record p {
    world = record p.world {
      id_file = if f.id_file_opens then some p.manager.id else p.world.id_file;
    };
    pc = before_count f a;
  }
  | before_count f a ↦ record p { loaded = p.manager.id; pc = before_store f a }
  | before_store f a ↦ record p {
    manager = record p.manager { id = (p.loaded + 1) % 2 ^ 32 };
    pc = before_reset f a;
  }
  | before_reset f a ↦ record p {
    manager = record p.manager { id = if p.manager.id == 2 ^ 32 - 1 then 0 else p.manager.id };
    pc = before_log f a;
  }
  | before_log f a ↦ record p {
    world = record p.world {
      log = push p.world.log f.log_time alarm a.alarm_sentence f.channel_id;
    };
    pc = before_active f a;
  }
  | before_active f a ↦ record p {
    manager = record p.manager {
      active_channels = put_key p.manager.active_channels f.channel_id f.active_now;
    };
    pc = before_start f a;
  }
  | before_start f a ↦ record p {
    manager = start_cooldown p.manager f.channel_id f.start_now;
    pc = returned (pos 1);
  }
  | returned r ↦ p
  | failed fault ↦ p
]

-- A thread that runs alone.
abbrev pub moves : ℕ → ℕ → Point → Point
moves k zero p = p
moves k (suc n) p = moves k n (move k p)

-- The threads by their numbers, each with a call of its own.
pub record Thread : Type 0 where
  pub pc : Pc
  pub loaded : ℕ

pub record System : Type 0 where
  pub manager : AlarmManager
  pub world : World
  pub threads : ℕ → Thread

abbrev pub point_at : System → ℕ → Point
point_at s i = record {
  manager = s.manager;
  world = s.world;
  pc = (s.threads i).pc;
  loaded = (s.threads i).loaded;
}

abbrev pub set_thread : (ℕ → Thread) → ℕ → Thread → ℕ → Thread
set_thread threads i t j = if i == j then t else threads j

-- The thread with a number takes a step.
abbrev pub pick : ℕ → System → ℕ → System
pick k s i =
    let p = move k (point_at s i) in
    record {
      manager = p.manager;
      world = p.world;
      threads = set_thread s.threads i (record { pc = p.pc; loaded = p.loaded });
    }

abbrev pub pick_all : ℕ → System → List ℕ → System
pick_all k s [] = s
pick_all k s (i ∷ schedule) = pick_all k (pick k s i) schedule

-- Each thread at the start of its call.
abbrev pub calls_of : AlarmManager → World → (ℕ → Frame) → System
calls_of m w frames = record {
  manager = m;
  world = w;
  threads = λ i. record { pc = before_staff (frames i); loaded = 0 };
}
