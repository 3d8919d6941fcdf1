-- ===== src/Channel/Watch.antt =====
-- src/main.cpp: all turns of a channel's loop since the start of its thread, against a monitor that forgets
-- no frame. The manager and the world of a turn, which other threads change too, come with the turn.
use multi_cctv_object_detect.Prelude.{
  ℕ, ℤ, pos, ◌≤◌, false, List, [], ◌∷◌, ◌++◌, map, ◌≡◌, ◌↔◌, refl, sym, ap, subst, ◌∙◌, append-nil,
  append_assoc, Bytes, All, Result, ok, err, ◌>>=◌, >>=-eq-ok,
}
use multi_cctv_object_detect.Alarm.{DetectedHistoryItem}
use multi_cctv_object_detect.AlarmFile.Render.{Rule}
use multi_cctv_object_detect.AlarmManager.{
  AlarmManager, World, Frame, can_cancel, process_channel_alarms,
}
use multi_cctv_object_detect.AlarmManager.Rules.{Fires, AnyRule}
use multi_cctv_object_detect.AlarmManager.Cases.{OnCooldown}
use multi_cctv_object_detect.Boot.Ready.{HasRules, turn-HasRules}
use multi_cctv_object_detect.Channel.{
  CameraChannel, Image, no_frame, black_frame, detected, Turn, new_channel, observe, frame_of, turn,
}
use multi_cctv_object_detect.Channel.Alarms.{seen_frame, turn-raises_iff}
use multi_cctv_object_detect.Channel.Recent.{newest, observe_all-from, items_of, items_of-cons}

pub record Input : Type 0 where
  pub manager : AlarmManager
  pub world : World
  pub frame : Frame
  pub image : Image

abbrev pub images_of : List Input → List Image
images_of inputs = map (λ t. t.image) inputs

unfoldable pub watch : ℕ → CameraChannel → List Input → Result CameraChannel
watch frames_to_check c [] = ok c
watch frames_to_check c (t ∷ inputs) =
    turn frames_to_check c t.manager t.world t.frame t.image >>= λ (c', m', w').
    watch frames_to_check c' inputs

-- The channel has its number and texts, and the newest of the frames in its history.
pub record Watches (c₀ : CameraChannel) (seen : List DetectedHistoryItem) (c : CameraChannel)
    : Type 0 where
  pub ident : c.camera_channel_id ≡ c₀.camera_channel_id
  pub description : c.channel_camera_description ≡ c₀.channel_camera_description
  pub destination : c.robot_destination ≡ c₀.robot_destination
  pub history : c.detected_class_history ≡ newest 199 seen

abbrev WatchesAfter : CameraChannel → List DetectedHistoryItem → Result Turn → Type 0
WatchesAfter c₀ seen (err fault) = Unit {0}
WatchesAfter c₀ seen (ok (c', m', w')) = Watches c₀ seen c'

observe-Watches :
    (c₀ : CameraChannel) (seen : List DetectedHistoryItem) (c : CameraChannel) (image : Image)
    → Watches c₀ seen c
    → Watches c₀ (seen ++ items_of (image ∷ [])) (observe c image)
unfolding observe
observe-Watches c₀ seen c no_frame h = record {
  ident = h.ident;
  description = h.description;
  destination = h.destination;
  history = observe_all-from c (no_frame ∷ []) seen h.history;
}
observe-Watches c₀ seen c black_frame h = record {
  ident = h.ident;
  description = h.description;
  destination = h.destination;
  history = observe_all-from c (black_frame ∷ []) seen h.history;
}
observe-Watches c₀ seen c (detected time classes) h = record {
  ident = h.ident;
  description = h.description;
  destination = h.destination;
  history = observe_all-from c (detected time classes ∷ []) seen h.history;
}

turn-Watches :
    (k : ℕ) (c₀ : CameraChannel) (seen : List DetectedHistoryItem) (c : CameraChannel)
    (m : AlarmManager) (w : World) (f : Frame) (image : Image) (result : Turn)
    → turn k c m w f image ≡ ok result
    → Watches c₀ seen c
    → WatchesAfter c₀ (seen ++ items_of (image ∷ [])) (ok result)
unfolding turn
turn-Watches k c₀ seen c m w f no_frame result e h =
    subst (WatchesAfter c₀ (seen ++ [])) e (observe-Watches c₀ seen c no_frame h)
turn-Watches k c₀ seen c m w f black_frame result e h =
    subst (WatchesAfter c₀ (seen ++ [])) e (observe-Watches c₀ seen c black_frame h)
turn-Watches k c₀ seen c m w f (detected time classes) result e h =
    let image = detected time classes in
    let c₁ = observe c image in
    let after = observe-Watches c₀ seen c image h in
    let ((r, m₁, w₁), called, ended) =
      >>=-eq-ok (process_channel_alarms k m w (frame_of c₁ f))
        (λ (r, m', w'). ok (record c₁ { alarm_result = r }, m', w')) e in
    subst (WatchesAfter c₀ (seen ++ items_of (image ∷ []))) ended (record {
      ident = after.ident;
      description = after.description;
      destination = after.destination;
      history = after.history;
    })

-- The frame of a call depends on these members of the channel only.
seen_frame-Watches :
    (c₀ c : CameraChannel) (h₀ seen : List DetectedHistoryItem) (f : Frame) (time : ℕ)
    (classes : List ℤ)
    → Watches c₀ h₀ c
    → seen_frame c f time classes seen ≡ seen_frame c₀ f time classes seen
unfolding observe
seen_frame-Watches c₀ c h₀ seen f time classes h = rw (h.ident, h.description, h.destination) refl

-- A call raises an alarm exactly in these cases, for its frame.
abbrev pub Raises : ℕ → List Rule → AlarmManager → ℤ → Frame → Frame → Type 0
Raises k rules m ident f g =
    (can_cancel m g ≡ false) × (¬ OnCooldown m ident f.cooldown_now) × AnyRule (Fires k g) rules

-- A turn that detects the classes.
abbrev pub detecting : AlarmManager → World → Frame → ℕ → List ℤ → Input
detecting m w f time classes = record {
  manager = m;
  world = w;
  frame = f;
  image = detected time classes;
}

module _ (k : ℕ) (h : k ≤ 199) (rules : List Rule) (c₀ : CameraChannel) (m : AlarmManager)
    (w : World) (f : Frame) (time : ℕ) (classes : List ℤ) (has_rules : HasRules rules m) where
  abbrev Outcome : CameraChannel → Frame → Type 0
  Outcome c' g = (c'.alarm_result ≡ pos 1) ↔ Raises k rules m c₀.camera_channel_id f g

  watch-from :
      (before : List Input) (c : CameraChannel) (seen : List DetectedHistoryItem)
      → All (λ t. HasRules rules t.manager) before
      → Watches c₀ seen c
      → (c' : CameraChannel) × (watch k c (before ++ detecting m w f time classes ∷ []) ≡ ok c')
        × ((c'.alarm_result ≡ pos 1)
            ↔ Raises k rules m c₀.camera_channel_id f
                (seen_frame c₀ f time classes (seen ++ items_of (images_of before))))
  unfolding watch
  watch-from [] c seen _ watches =
      let (c', m', w', e, _, raises) =
        turn-raises_iff k c m w f time classes rules seen h watches.history has_rules.loaded
          has_rules.ready in
      (
        c',
        rw e refl,
        subst (λ xs. Outcome c' (seen_frame c₀ f time classes xs)) (sym (append-nil seen))
            (subst (Outcome c') (seen_frame-Watches c₀ c seen seen f time classes watches) (
              subst
                (λ ident.
                  (c'.alarm_result ≡ pos 1)
                  ↔ Raises k rules m ident f (seen_frame c f time classes seen))
                watches.ident raises)),
      )
  watch-from (t ∷ before) c seen (t_rules, all_rules) watches =
      let (c₁, m₁, w₁, e, _, _) =
        turn-HasRules rules k c t.manager t.world t.frame t.image t_rules in
      let watches₁ =
        turn-Watches k c₀ seen c t.manager t.world t.frame t.image (c₁, m₁, w₁) e watches in
      let (c', e', raises) =
        watch-from before c₁ (seen ++ items_of (t.image ∷ [])) all_rules watches₁ in
      (
        c',
        rw e e',
        subst (λ xs. Outcome c' (seen_frame c₀ f time classes xs))
            (append_assoc seen (items_of (t.image ∷ [])) (items_of (images_of before))
              ∙ ap (λ xs. seen ++ xs) (items_of-cons t.image (images_of before)))
            raises,
      )

-- For a loop that starts with a new channel, whose managers and worlds change in any way between the turns
-- while each manager holds the alarms of the same rules, which are IsReady, when frames_to_check is at most
-- 199: the turns return, and after the last, which brings the detected classes at time, alarm_result is 1
-- exactly when the call cannot cancel, the channel is not on cooldown and some rule Fires for the frame with
-- the history of every frame that any turn has detected, although the channel keeps at most 200 of them.
pub watch-Raises_iff :
    (k : ℕ)
    → k ≤ 199
    → (rules : List Rule) (camera_channel_id channel_number : ℤ) (description destination : Bytes)
      (before : List Input) (m : AlarmManager) (w : World) (f : Frame) (time : ℕ) (classes : List ℤ)
    → HasRules rules m
    → All (λ t. HasRules rules t.manager) before
    → (c' : CameraChannel) × (watch k
          (new_channel camera_channel_id channel_number description destination)
          (before ++ detecting m w f time classes ∷ [])
        ≡ ok c')
      × ((c'.alarm_result ≡ pos 1)
          ↔ Raises k rules m camera_channel_id f (
              seen_frame
                (new_channel camera_channel_id channel_number description destination)
                f
                time
                classes
                (items_of (images_of before))))
watch-Raises_iff k h rules i n description destination before m w f time classes has_rules
      all_rules =
    let c₀ = new_channel i n description destination in
    watch-from k h rules c₀ m w f time classes has_rules before c₀ [] all_rules
      (record { ident = refl; description = refl; destination = refl; history = refl })
