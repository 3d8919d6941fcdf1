-- ===== src/AlarmManager/Rules.antt =====
-- src/alarm/alarmManager.cpp: the rules of an alarm file, in the loop of `process_channel_alarms`.
use multi_cctv_object_detect.Prelude.{
  ℕ, suc, ℤ, pos, ◌==ℤ◌, ==ℤ_iff, Bool, true, false, List, [], ◌∷◌, map, ◌≡◌, ◌↔◌, ◌⊎◌, inl, inr,
  refl, sym, ◌∙◌, Option, none, some, Bytes, digits_value, All, ok, Bool-cases,
}
use multi_cctv_object_detect.Alarm.{Alarm, set_id}
use multi_cctv_object_detect.Alarm.Syntax.{Spelled, Plain}
use multi_cctv_object_detect.Alarm.Meaning.{HoldsInEach, define_alarm-compiled}
use multi_cctv_object_detect.AlarmFile.Render.{Rule, IsRule, alarm_of}
use multi_cctv_object_detect.AlarmManager.{Frame, number_alarms, rule_holds, first_rule, context_at}

-- A rule's condition is meant for the frame's channel and holds in each of the last `k` frames.
abbrev pub Fires : ℕ → Frame → Rule → Type 0
Fires k f r = (pos (digits_value 0 r.channel) ≡ f.channel_id) × HoldsInEach k r.condition f.history

abbrev pub AnyRule : (Rule → Type 0) → List Rule → Type 0
AnyRule P [] = ⊥
AnyRule P (r ∷ rules) = P r ⊎ AnyRule P rules

-- The alarm's number names an entry of `alarm_context`.
abbrev HasContext : List Bytes → Rule → Type 0
HasContext context r =
    (message : Bytes) × (context_at context (pos (digits_value 0 r.number)) ≡ ok message)

-- A rule that the program can process: well-formed, `not` on classes only, with its context.
pub record IsReady (context : List Bytes) (r : Rule) : Type 0 where
  pub rule : IsRule r
  pub plain : Plain r.condition
  pub has_context : HasContext context r

rule_holds-Fires :
    (k : ℕ) (f : Frame) (r : Rule) (n : ℤ)
    → Spelled r.condition
    → Plain r.condition
    → (b : Bool) × (rule_holds k f (set_id (alarm_of r) n) ≡ ok b) × ((b ≡ true) ↔ Fires k f r)
unfolding rule_holds
rule_holds-Fires k f r n h p =
    let (b, e, i) = define_alarm-compiled k r.condition f.history h p in
    elim (Bool-cases (pos (digits_value 0 r.channel) ==ℤ f.channel_id)) [
      | inl here ↦ (b, rw here e, (λ t. ((==ℤ_iff _ _).0 here, i.0 t), λ t. i.1 t.1))
      | inr away ↦ (false, rw away, (λ t. cc, λ t. sym away ∙ (==ℤ_iff _ _).1 t.0))
    ]

-- What the loop over the rules finds: no rule, and none fires; or the alarm of a ready rule, and some
-- rule fires.
abbrev Finds : ℕ → Frame → List Bytes → List Rule → Option Alarm → Type 0
Finds k f context rules o =
    ((o ≡ none) × ¬ AnyRule (Fires k f) rules)
    ⊎ ((r : Rule) × (n : ℕ) × (o ≡ some (set_id (alarm_of r) (pos n)))
        × HasContext context r
        × AnyRule (Fires k f) rules)

module _ (k : ℕ) (f : Frame) (context : List Bytes) where
  Finds-later :
      (r : Rule) (rules : List Rule) {o : Option Alarm}
      → ¬ Fires k f r
      → Finds k f context rules o
      → Finds k f context (r ∷ rules) o
  Finds-later r rules quiet (inl (e, none_fires)) =
      inl (e, λ t. elim t [ inl h ↦ quiet h | inr h ↦ none_fires h ])
  Finds-later r rules quiet (inr (s, n, e, c, fires)) = inr (s, n, e, c, inr fires)

  pub first_rule-Finds :
      (n : ℕ) (rules : List Rule)
      → All (IsReady context) rules
      → (o : Option Alarm) × (first_rule k f (number_alarms n (map alarm_of rules)) ≡ ok o)
        × Finds k f context rules o
  unfolding first_rule number_alarms
  first_rule-Finds n [] h = (none, refl, inl (refl, λ t. t))
  first_rule-Finds n (r ∷ rules) (h, hs) =
      let (b, e, i) = rule_holds-Fires k f r (pos n) h.rule.spelled h.plain in
      let (o, e', found) = first_rule-Finds (suc n) rules hs in
      elim (Bool-cases b) [
        | inl fires ↦ (
          some (set_id (alarm_of r) (pos n)),
          rw (e, fires),
          inr (r, n, refl, h.has_context, inl (i.0 fires)),
        )
        | inr quiet ↦ (o, rw (e, quiet) e', Finds-later r rules (λ t. cc (i.1 t)) found)
      ]
