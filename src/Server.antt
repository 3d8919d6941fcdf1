-- ===== src/Server.antt =====
-- src/server/server.cpp: the handlers of "/api/robot-control", over the array `mute_robot_signals`
-- of include/global.h. The json library reads the body: its answer is an argument, `none` where
-- parsing, an access or a conversion throws. `status` is `none` where the handler leaves it alone.
pub mod Muting
pub mod Silence
use multi_cctv_object_detect.Prelude.{
  ℕ, zero, suc, ℤ, pos, negsuc, Bool, false, ◌||◌, List, [], ◌∷◌, Option, none, some, Bytes, codes,
  get_elem?, set_elem, replicate, ltb, leb, if◌then◌else◌,
}

abbrev max_channel_num : ℕ
max_channel_num = 16

-- `std::atomic<bool> mute_robot_signals[MAX_CHANNEL_NUM] = { false }`
abbrev pub no_mutes : List Bool
no_mutes = replicate max_channel_num false

pub record Control : Type 0 where
  pub channel : ℤ
  pub mute_signal : Bool

pub record Response : Type 0 where
  pub status : Option ℕ
  pub body : Bytes
  pub allow_origin : Bytes

abbrev text_response : Option ℕ → Bytes → Response
text_response status body = record { status = status; body = body; allow_origin = codes "*" }

-- `ch < 1 || ch >= MAX_CHANNEL_NUM`, where `ch` is not negative.
abbrev pub bad_channel : ℕ → Bool
bad_channel ch = ltb ch 1 || leb max_channel_num ch

abbrev set_mute : List Bool → ℤ → Bool → Response × List Bool
set_mute mutes (negsuc n) mute = (text_response (some 400) (codes "Invalid channel"), mutes)
set_mute mutes (pos ch) mute =
    if bad_channel ch
    then (text_response (some 400) (codes "Invalid channel"), mutes)
    else (text_response none (codes "Success"), set_elem mutes ch mute)

-- POST
unfoldable pub post_control : Option Control → List Bool → Response × List Bool
post_control none mutes = (text_response (some 400) (codes "Bad request"), mutes)
post_control (some r) mutes = set_mute mutes r.channel r.mute_signal

-- The loop over `ch` with `n` rounds left: the entries of `states`, before they are dumped.
unfoldable pub states_from : List Bool → ℕ → ℕ → List (ℕ × Bool)
states_from mutes ch zero = []
states_from mutes ch (suc n) =
    (ch, elim (get_elem? mutes ch) [ none ↦ false | some b ↦ b ]) ∷ states_from mutes (suc ch) n

-- GET
unfoldable pub get_states : List Bool → List (ℕ × Bool)
unfolding states_from
get_states mutes = states_from mutes 1 15

-- OPTIONS: the headers of the reply.
abbrev preflight_headers : List (Bytes × Bytes)
preflight_headers =
    (codes "Access-Control-Allow-Origin", codes "*")
    ∷ (codes "Access-Control-Allow-Methods", codes "POST, OPTIONS")
    ∷ (codes "Access-Control-Allow-Headers", codes "Content-Type")
    ∷ []
