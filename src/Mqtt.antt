-- ===== src/Mqtt.antt =====
-- src/mqttManager/mqttManager.cpp: the connection to the broker, and `publish` with its mute check.
-- The client of the Paho library is not modelled: its answers (does a call throw, is it connected)
-- are arguments, and what leaves the program is the message handed to it. A json payload is the
-- record of the members that the source gives it; `dump` happens on the way out.
pub mod Retry
use multi_cctv_object_detect.Prelude.{
  ℕ, ℤ, pos, negsuc, Bool, true, false, not, ◌||◌, List, Option, none, some, Bytes, get_elem?,
  if◌then◌else◌,
}

-- What the program publishes on "CCTV/Alarm".
pub record AlarmMessage : Type 0 where
  pub id : ℕ
  pub camera_id : ℤ
  pub alarm_id : ℤ
  pub destination : Bytes
  pub camera_description : Bytes
  pub detected_ids : List ℤ
  pub situation : Bytes
  pub message : Bytes
  pub created_at : Bytes

pub record StaffEntry : Type 0 where
  pub camera_id : ℤ
  pub destination : Bytes
  pub staff_count : ℕ

-- What the program publishes on "CCTV/StaffCount".
pub record StaffReport : Type 0 where
  pub entries : List StaffEntry
  pub timestamp : Bytes

pub data Payload : Type 0 where
  alarm_payload : AlarmMessage → Payload
  staff_payload : StaffReport → Payload

-- `payload.contains("camera_id") && payload["camera_id"].is_number()`, with the number.
abbrev camera_id_of : Payload → Option ℤ
camera_id_of (alarm_payload m) = some m.camera_id
camera_id_of (staff_payload r) = none

pub record Message : Type 0 where
  pub topic : Bytes
  pub payload : Payload
  pub qos : ℕ

-- The options of `connect`; `reconnect` is the pair of `set_automatic_reconnect`.
pub record ConnectOptions : Type 0 where
  pub keep_alive_interval : ℕ
  pub clean_session : Bool
  pub user_name : Bytes
  pub password : Bytes
  pub reconnect : Option (ℕ × ℕ)

pub record Client : Type 0 where
  pub server : Bytes
  pub client_id : Bytes
  pub options : ConnectOptions

pub record MqttManager : Type 0 where
  pub address : Bytes
  pub client_id : Bytes
  pub user_id : Bytes
  pub password : Bytes
  pub client_ : Option Client

-- How the library answers an attempt to connect.
pub data Attempt : Type 0 where
  no_client no_connection connected : Attempt

-- `new async_client` throws, or leaves a client behind, also where `connect` then throws.
abbrev client_after : Attempt → Client → Option Client
client_after no_client c = none
client_after no_connection c = some c
client_after connected c = some c

abbrev options_of : MqttManager → Option (ℕ × ℕ) → ConnectOptions
options_of m reconnect = record {
  keep_alive_interval = 20;
  clean_session = true;
  user_name = m.user_id;
  password = m.password;
  reconnect = reconnect;
}

abbrev attempt_connect : Attempt → Option (ℕ × ℕ) → MqttManager → MqttManager
attempt_connect answer reconnect m = record m {
  client_ =
      client_after answer
        (record { server = m.address; client_id = m.client_id; options = options_of m reconnect });
}

-- `connect()`, with the credentials that the manager has.
unfoldable pub connect_again : Attempt → MqttManager → MqttManager
connect_again answer m = elim m.client_ [ some c ↦ m | none ↦ attempt_connect answer none m ]

-- `connect(address, clientID, userID, password)`
unfoldable pub connect : Attempt → MqttManager → Bytes → Bytes → Bytes → Bytes → MqttManager
connect answer m address client_id user_id password = elim m.client_ [
  | some c ↦ m
  | none ↦ attempt_connect answer (some (1, 10)) (record m {
    address = address;
    client_id = client_id;
    user_id = user_id;
    password = password;
  })
]

-- Whether `disconnect` calls the client; the manager keeps its client.
unfoldable disconnect : Bool → MqttManager → Bool
disconnect is_connected m = elim m.client_ [ none ↦ false | some c ↦ is_connected ]

-- `mute_robot_signals[cam_id]`, behind `cam_id >= 0 && cam_id < MUTE_ARR_SIZE`.
abbrev pub is_muted : List Bool → ℤ → Bool
is_muted mutes (negsuc n) = false
is_muted mutes (pos n) = elim (get_elem? mutes n) [ none ↦ false | some b ↦ b ]

abbrev payload_muted : List Bool → Payload → Bool
payload_muted mutes p = elim (camera_id_of p) [ none ↦ false | some cam_id ↦ is_muted mutes cam_id ]

-- The message that is handed to the client, if any: an exception of the client is only logged.
unfoldable pub publish : List Bool → MqttManager → Bool → Bytes → Payload → Option Message
publish mutes m is_connected topic payload = elim m.client_ [
  | none ↦ none
  | some c ↦
      if not is_connected || payload_muted mutes payload
      then none
      else some (record { topic = topic; payload = payload; qos = 1 })
]
