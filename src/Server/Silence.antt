-- ===== src/Server/Silence.antt =====
-- src/server/server.cpp with src/alarm/alarmManager.cpp: the requests, and the alarms after them.
use multi_cctv_object_detect.Prelude.{
  ℕ, zero, suc, ℤ, pos, ◌+◌, ◌≤◌, ◌<◌, Bool, true, List, ◌≡◌, ◌∙◌, ap, Option, some, arith,
  get_elem?, length, ◌==◌, if◌then◌else◌, ok,
}
use multi_cctv_object_detect.Mqtt.{is_muted}
use multi_cctv_object_detect.AlarmManager.{AlarmManager, World, Frame, process_channel_alarms}
use multi_cctv_object_detect.AlarmManager.Ids.{process-muted}
use multi_cctv_object_detect.Server.{Control, post_control, get_states, states_from}
use multi_cctv_object_detect.Server.Muting.{post_control-is_muted}

abbrev mute_request : ℕ → Bool → Option Control
mute_request ch b = some (record { channel = pos ch; mute_signal = b })

states_from-get :
    (mutes : List Bool) (ch n j : ℕ)
    → j < n
    → get_elem? (states_from mutes ch n) j ≡ some (ch + j, is_muted mutes (pos (ch + j)))
unfolding states_from
states_from-get mutes ch zero j h = absurd (omega (arith, h))
states_from-get mutes ch (suc n) zero h =
    ap (λ k. some (k, is_muted mutes (pos k))) {x = ch} (omega arith)
states_from-get mutes ch (suc n) (suc j) h =
    states_from-get mutes (suc ch) n j (omega (arith, h))
    ∙ ap (λ k. some (k, is_muted mutes (pos k))) {x = suc ch + j} (omega arith)

-- After an accepted request the states that GET lists are those of the channels from 1 to 15, in
-- order: the flag of the request for the channel that it names, the flag from before for the others.
get_states-post_control :
    (mutes : List Bool) (ch : ℕ) (b : Bool) (j : ℕ)
    → length mutes ≡ 16
    → 1 ≤ ch
    → ch < 16
    → j < 15
    → get_elem? (get_states (post_control (mute_request ch b) mutes).1) j
      ≡ some (1 + j, if ch == 1 + j then b else is_muted mutes (pos (1 + j)))
unfolding get_states
get_states-post_control mutes ch b j full low high h =
    states_from-get (post_control (mute_request ch b) mutes).1 1 15 j h
    ∙ ap (λ x. some (1 + j, x)) (post_control-is_muted mutes ch b full low high (1 + j))

-- After an accepted request that mutes a channel, a call of `process_channel_alarms` for that channel
-- publishes nothing.
pub post_control-silences :
    (k : ℕ) (m : AlarmManager) (w : World) (f : Frame) (r : ℤ) (m' : AlarmManager) (w' : World)
    (mutes : List Bool) (ch : ℕ)
    → length mutes ≡ 16
    → 1 ≤ ch
    → ch < 16
    → w.mutes ≡ (post_control (mute_request ch true) mutes).1
    → f.channel_id ≡ pos ch
    → process_channel_alarms k m w f ≡ ok (r, m', w')
    → w'.published ≡ w.published
post_control-silences k m w f r m' w' mutes ch full low high e here p =
    let same : (ch == ch) ≡ true = ground arith in
    let off : is_muted (post_control (mute_request ch true) mutes).1 (pos ch) ≡ true =
      rw same at (post_control-is_muted mutes ch true full low high ch) in
    process-muted k m w f r m' w' p (rw (e, here) off)
