-- ===== src/Boot/Ready.antt =====
-- src/main.cpp with src/alarm/alarmManager.cpp: the turns of all channels keep the rules in place.
use multi_cctv_object_detect.Prelude.{
  ℕ, zero, suc, ℤ, pos, List, [], ◌∷◌, map, ◌≡◌, inl, inr, refl, some, get_elem?, set_elem, All, ok,
  Option-cases,
}
use multi_cctv_object_detect.AlarmFile.Render.{Rule, alarm_of}
use multi_cctv_object_detect.AlarmManager.{AlarmManager, World, Frame, number_alarms, cancel_alarm}
use multi_cctv_object_detect.AlarmManager.Rules.{IsReady}
use multi_cctv_object_detect.AlarmManager.Outcome.{
  Outcome, cancelled, waiting, checked, quiet, raises, process-Outcome,
}
use multi_cctv_object_detect.AlarmManager.Decides.{process-raises_iff}
use multi_cctv_object_detect.Channel.{
  CameraChannel, Image, no_frame, black_frame, detected, observe, frame_of, turn,
}
use multi_cctv_object_detect.Boot.{Program, channel_turn, run_turns}

-- The manager has the rules loaded, each with its context.
pub record HasRules (rules : List Rule) (m : AlarmManager) : Type 0 where
  pub loaded : m.alarms ≡ number_alarms 1 (map alarm_of rules)
  pub ready : All (IsReady m.alarm_context) rules

-- The channels carry the numbers from `n` on.
abbrev pub Numbered : ℕ → List CameraChannel → Type 0
Numbered n [] = Unit
Numbered n (c ∷ channels) = (c.camera_channel_id ≡ pos n) × Numbered (suc n) channels

-- The rules are in place, and the channels are numbered from 1 on.
pub record IsRunning (rules : List Rule) (p : Program) : Type 0 where
  pub has_rules : HasRules rules p.manager
  pub numbered : Numbered 1 p.channels

module _ (rules : List Rule) (k : ℕ) where
  Outcome-HasRules :
      {m : AlarmManager} {w : World} {f : Frame} {r : ℤ} {m' : AlarmManager} {w' : World}
      → HasRules rules m
      → Outcome k m w f r m' w'
      → HasRules rules m'
  unfolding cancel_alarm
  Outcome-HasRules h (cancelled _ _ em _) = rw em (record { loaded = h.loaded; ready = h.ready })
  Outcome-HasRules h (waiting _ _ _ em _) = rw em h
  Outcome-HasRules h (checked _ _ cs rel (quiet _ _ em _)) =
      rw em (record { loaded = h.loaded; ready = h.ready })
  Outcome-HasRules h (checked _ _ cs rel (raises _ _ _ _ _ _ _ em _)) =
      rw em (record { loaded = h.loaded; ready = h.ready })

  pub turn-HasRules :
      (c : CameraChannel) (m : AlarmManager) (w : World) (f : Frame) (image : Image)
      → HasRules rules m
      → (c' : CameraChannel) × (m' : AlarmManager) × (w' : World) × (turn k c m w f image
          ≡ ok (c', m', w'))
        × HasRules rules m'
        × (c'.camera_channel_id ≡ c.camera_channel_id)
  unfolding turn observe
  turn-HasRules c m w f no_frame h = (observe c no_frame, m, w, refl, h, refl)
  turn-HasRules c m w f black_frame h = (observe c black_frame, m, w, refl, h, refl)
  turn-HasRules c m w f (detected time classes) h =
      let c₁ = observe c (detected time classes) in
      let (r, m', w', e, _) = process-raises_iff k m w (frame_of c₁ f) rules h.loaded h.ready in
      (
        record c₁ { alarm_result = r },
        m',
        w',
        rw e,
        Outcome-HasRules h (process-Outcome k m w (frame_of c₁ f) r m' w' e),
        refl,
      )

set_elem-Numbered :
    (n i : ℕ) (channels : List CameraChannel) (c c' : CameraChannel)
    → get_elem? channels i ≡ some c
    → c'.camera_channel_id ≡ c.camera_channel_id
    → Numbered n channels
    → Numbered n (set_elem channels i c')
set_elem-Numbered n i [] c c' found same h = tt
set_elem-Numbered n zero (d ∷ channels) c c' found same (h, hs) = (cc, hs)
set_elem-Numbered n (suc i) (d ∷ channels) c c' found same (h, hs) =
    (h, set_elem-Numbered (suc n) i channels c c' found same hs)

module _ (rules : List Rule) (k : ℕ) where
  channel_turn-IsRunning :
      (p : Program) (t : ℕ × Frame × Image)
      → IsRunning rules p
      → (p' : Program) × (channel_turn k p t ≡ ok p') × IsRunning rules p'
  unfolding channel_turn
  channel_turn-IsRunning p (i, f, image) h = elim (Option-cases (get_elem? p.channels i)) [
    | inl missing ↦ (p, rw (missing, channel_turn), h)
    | inr (c, found) ↦
        let (c', m', w', e, has_rules, same) =
          turn-HasRules rules k c p.manager p.world f image h.has_rules in
        (
          record p { manager = m'; world = w'; channels = set_elem p.channels i c' },
          rw (found, channel_turn, e),
          record {
            has_rules = has_rules;
            numbered = set_elem-Numbered 1 i p.channels c c' found same h.numbered;
          },
        )
  ]

  pub run_turns-IsRunning :
      (p : Program) (turns : List (ℕ × Frame × Image))
      → IsRunning rules p
      → (p' : Program) × (run_turns k p turns ≡ ok p') × IsRunning rules p'
  unfolding run_turns
  run_turns-IsRunning p [] h = (p, refl, h)
  run_turns-IsRunning p (t ∷ turns) h =
      let (p₁, e₁, h₁) = channel_turn-IsRunning p t h in
      let (p₂, e₂, h₂) = run_turns-IsRunning p₁ turns h₁ in (p₂, rw e₁ e₂, h₂)
