-- ===== src/Server/Muting.antt =====
-- src/server/server.cpp with src/mqttManager/mqttManager.cpp: what a robot-control request mutes.
use multi_cctv_object_detect.Prelude.{
  ℕ, pos, ◌<◌, ◌≤◌, Bool, false, List, ◌≡◌, inl, inr, Option, some, arith, get_elem?, set_elem,
  get_elem?-set_elem_self, get_elem?-set_elem_ne, length, ◌==◌, if◌then◌else◌, Bool-cases,
}
use multi_cctv_object_detect.Mqtt.{is_muted}
use multi_cctv_object_detect.Server.{Control, bad_channel, post_control}

get-set :
    (mutes : List Bool) (i j : ℕ) (b : Bool)
    → i < length mutes
    → (get_elem? (set_elem mutes i b) j ≡ (if i == j then some b else get_elem? mutes j))
get-set mutes i j b h = elim (Bool-cases (i == j)) [
  | inl same ↦
      let e : i ≡ j = ground arith in rw same (rw (← e) (get_elem?-set_elem_self mutes i b h))
  | inr other ↦ rw other (get_elem?-set_elem_ne mutes i j b (λ e. ground arith))
]

module _ (mutes : List Bool) (ch : ℕ) (b : Bool) (full : length mutes ≡ 16) (low : 1 ≤ ch)
    (high : ch < 16) where
  abbrev request : Option Control
  request = some (record { channel = pos ch; mute_signal = b })

  accepted : bad_channel ch ≡ false
  accepted = ground arith

  post_control-mutes : (post_control request mutes).1 ≡ set_elem mutes ch b
  unfolding post_control
  post_control-mutes = rw accepted

-- An accepted request gives exactly the channel that it names the mute flag that it carries.
pub post_control-is_muted :
    (mutes : List Bool) (ch : ℕ) (b : Bool)
    → length mutes ≡ 16
    → 1 ≤ ch
    → ch < 16
    → (j : ℕ)
    → is_muted (post_control (some (record { channel = pos ch; mute_signal = b })) mutes).1 (pos j)
      ≡ (if ch == j then b else is_muted mutes (pos j))
post_control-is_muted mutes ch b full low high j =
    let e = post_control-mutes mutes ch b full low high in
    let inside : ch < length mutes = omega (arith, full, high) in
    elim (Bool-cases (ch == j)) [
      | inl same ↦
          let g : get_elem? (set_elem mutes ch b) j ≡ some b =
            rw same at (get-set mutes ch j b inside) in
          rw (e, is_muted, g, same)
      | inr other ↦
          let g : get_elem? (set_elem mutes ch b) j ≡ get_elem? mutes j =
            rw other at (get-set mutes ch j b inside) in
          rw (e, is_muted, g, other)
    ]
