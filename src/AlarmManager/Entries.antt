-- ===== src/AlarmManager/Entries.antt =====
-- src/alarm/alarmManager.cpp: managers that are the same for a channel, and what `is_on_cooldown` makes of
-- them.
use multi_cctv_object_detect.Prelude.{
  ℕ, ℤ, Bool, true, false, List, ◌≡◌, inl, inr, refl, sym, ap, subst, subst₂, ◌∙◌, none, some,
  ◌==ℤ◌, ==ℤ_refl, Bool-cases, Option-cases, find_key, erase_key, find-erase,
}
use multi_cctv_object_detect.AlarmManager.{AlarmManager, is_on_cooldown, within}
use multi_cctv_object_detect.AlarmManager.Channels.{Untouched}

pub same : (m : AlarmManager) (j : ℤ) → Untouched m m j
same m j = record { cooldown = refl; active = refl; rules = refl; context = refl; time = refl }

pub chain :
    {m m' m'' : AlarmManager} {j : ℤ} → Untouched m m' j → Untouched m' m'' j → Untouched m m'' j
chain h k = record {
  cooldown = k.cooldown ∙ h.cooldown;
  active = k.active ∙ h.active;
  rules = k.rules ∙ h.rules;
  context = k.context ∙ h.context;
  time = k.time ∙ h.time;
}

expired :
    (m : AlarmManager) (ch : ℤ) (now since : ℕ)
    → find_key m.channel_cooldowns ch ≡ some since
    → within m.cooltime since now ≡ false
    → is_on_cooldown m ch now
      ≡ (false, record m { channel_cooldowns = erase_key m.channel_cooldowns ch })
unfolding is_on_cooldown
expired m ch now since e late = rw (e, is_on_cooldown, late)

early :
    (m : AlarmManager) (ch : ℤ) (now since : ℕ)
    → find_key m.channel_cooldowns ch ≡ some since
    → within m.cooltime since now ≡ true
    → is_on_cooldown m ch now ≡ (true, m)
unfolding is_on_cooldown
early m ch now since e soon = rw (e, is_on_cooldown, soon)

absent :
    (m : AlarmManager) (ch : ℤ) (now : ℕ)
    → find_key m.channel_cooldowns ch ≡ none
    → is_on_cooldown m ch now ≡ (false, m)
unfolding is_on_cooldown
absent m ch now e = rw (e, is_on_cooldown)

abbrev pub with_cooldowns : AlarmManager → List (ℤ × ℕ) → AlarmManager
with_cooldowns m cs = record m { channel_cooldowns = cs }

-- A channel that is not on cooldown: at most its entry goes.
pub off_cooldown :
    (m : AlarmManager) (ch : ℤ) (now : ℕ)
    → (is_on_cooldown m ch now).0 ≡ false
    → (cs : List (ℤ × ℕ)) × (is_on_cooldown m ch now ≡ (false, with_cooldowns m cs))
off_cooldown m ch now off = elim (Option-cases (find_key m.channel_cooldowns ch)) [
  | inl e ↦ (m.channel_cooldowns, absent m ch now e)
  | inr (since, e) ↦ elim (Bool-cases (within m.cooltime since now)) [
    | inl soon ↦
        let on : true ≡ false =
          ap (λ (q : Bool × AlarmManager). q.0) (sym (early m ch now since e soon)) ∙ off in
        absurd (cc on)
    | inr late ↦ (erase_key m.channel_cooldowns ch, expired m ch now since e late)
  ]
]

pub cooldown-other :
    (m : AlarmManager) (ch : ℤ) (now : ℕ) (j : ℤ)
    → (ch ==ℤ j) ≡ false
    → Untouched m (is_on_cooldown m ch now).1 j
cooldown-other m ch now j other = elim (Option-cases (find_key m.channel_cooldowns ch)) [
  | inl e ↦ subst (λ q. Untouched m q.1 j) (sym (absent m ch now e)) (same m j)
  | inr (since, e) ↦ elim (Bool-cases (within m.cooltime since now)) [
    | inl soon ↦ subst (λ q. Untouched m q.1 j) (sym (early m ch now since e soon)) (same m j)
    | inr late ↦
        subst (λ q. Untouched m q.1 j) (sym (expired m ch now since e late))
          (record {
            cooldown = find-erase m.channel_cooldowns ch j ∙ rw other refl;
            active = refl;
            rules = refl;
            context = refl;
            time = refl;
          })
  ]
]

-- Two answers of `is_on_cooldown` that are the same for the channel.
abbrev pub AgreeFor : ℤ → Bool × AlarmManager → Bool × AlarmManager → Type 0
AgreeFor ch q q' = (q.0 ≡ q'.0) × Untouched q.1 q'.1 ch

pub cooldown-own :
    (m m' : AlarmManager) (ch : ℤ) (now : ℕ)
    → Untouched m m' ch
    → AgreeFor ch (is_on_cooldown m ch now) (is_on_cooldown m' ch now)
cooldown-own m m' ch now h = elim (Option-cases (find_key m.channel_cooldowns ch)) [
  | inl e ↦
      subst₂ (AgreeFor ch) (sym (absent m ch now e)) (sym (absent m' ch now (h.cooldown ∙ e)))
        (refl, h)
  | inr (since, e) ↦ elim (Bool-cases (within m.cooltime since now)) [
    | inl soon ↦
        subst₂ (AgreeFor ch) (sym (early m ch now since e soon))
          (sym
            (early m' ch now since (h.cooldown ∙ e) (ap (λ c. within c since now) h.time ∙ soon)))
          (refl, h)
    | inr late ↦
        subst₂ (AgreeFor ch) (sym (expired m ch now since e late))
          (sym
            (expired m' ch now since (h.cooldown ∙ e) (ap (λ c. within c since now) h.time ∙ late)))
          (
            refl,
            record {
              cooldown =
                  find-erase m'.channel_cooldowns ch ch
                  ∙ (rw (==ℤ_refl ch) refl ∙ sym (find-erase m.channel_cooldowns ch ch));
              active = h.active;
              rules = h.rules;
              context = h.context;
              time = h.time;
            },
          )
  ]
]

abbrev with_entries : AlarmManager → List (ℤ × ℕ) → List (ℤ × ℕ) → ℕ → AlarmManager
with_entries m cooldowns active n = record m {
  channel_cooldowns = cooldowns;
  active_channels = active;
  id = n;
}

-- Managers that are the same for a channel stay so where its entries are changed alike.
pub alike :
    {m m' : AlarmManager} {j : ℤ} (cooldowns cooldowns' active active' : List (ℤ × ℕ)) (n n' : ℕ)
    → Untouched m m' j
    → find_key cooldowns' j ≡ find_key cooldowns j
    → find_key active' j ≡ find_key active j
    → Untouched (with_entries m cooldowns active n) (with_entries m' cooldowns' active' n') j
alike cooldowns cooldowns' active active' n n' h ec ea = record {
  cooldown = ec;
  active = ea;
  rules = h.rules;
  context = h.context;
  time = h.time;
}
