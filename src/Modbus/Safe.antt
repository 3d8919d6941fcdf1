-- ===== src/Modbus/Safe.antt =====
-- src/_modbus/modbus_handler.c: the calls in an order that is safe.
use multi_cctv_object_detect.Prelude.{
  ℤ, pos, Bool, true, false, List, [], ◌∷◌, ◌≡◌, inl, inr, refl, ◌∙◌, Option, none, some, arith,
  ◌==ℤ◌, ==ℤ_iff, ==ℤ_refl, Bool-cases, All, find_key, put_key, erase_key, find-erase,
  if◌then◌else◌, ◌&&◌, ◌>>=◌, Result, subst, sym, ap, ok, err, undefined,
}
use multi_cctv_object_detect.Modbus.{
  Mapping, null, ModbusHandler, modbus_handler_init, release_mapping, release_context, in_use,
  frees, modbus_handler_release, modbus_handler_start, modbus_handler_stop,
}
use multi_cctv_object_detect.Modbus.Calls.{
  IsSafe, Call, init_call, release_call, stop_call, start_call, set_ireg_call, set_hreg_call,
  get_ireg_call, get_hreg_call, perform, perform_all, Expected, put-IsLive, clear_registers-length,
  take_back-live, put-still, mapping-cases, Goes, InPhase, Phase, idle, working, stuck, next, Fits,
  Orderly, threads_of,
}
use multi_cctv_object_detect.Modbus.Registers.{
  set_ireg-IsSafe, set_hreg-IsSafe, get_ireg-ok, get_hreg-ok,
}

init-IsSafe :
    (s : ModbusHandler) (context : Option ℤ) (mapping : Option (ℤ × Mapping))
    → IsSafe s
    → Expected (init_call context mapping)
    → Goes s (modbus_handler_init s context mapping)
unfolding modbus_handler_init
init-IsSafe s none answer h good = (
  record s { ctx = null },
  refl,
  record { context = inl refl; mapping = h.mapping; running = h.running },
  refl,
)
init-IsSafe s (some c) none h good = elim good [ ]
init-IsSafe s (some c) (some (a, m)) h good =
    let (table, e, size) =
      clear_registers-length m.tab_registers 0 100 (ground arith) good.registers in
    let m' = record m { tab_registers = table } in
    (
      record s {
        ctx = c;
        contexts = put_key s.contexts c tt;
        mb_mapping = a;
        mappings = put_key s.mappings a m';
      },
      rw e refl,
      record {
        context = inr (tt, put-IsLive s.contexts c tt);
        mapping = inr (
          m',
          put-IsLive s.mappings a m',
          record { registers = size; input_registers = good.input_registers },
        );
        running = h.running;
      },
      refl,
    )

release_mapping-IsSafe : (s : ModbusHandler) → IsSafe s → Goes s (release_mapping s)
release_mapping-IsSafe s h = elim (mapping-cases s h) [
  | inl nothing ↦ (s, rw nothing refl, h, refl)
  | inr (m, there, found, _, _) ↦ (
    record s { mappings = erase_key s.mappings s.mb_mapping; mb_mapping = null },
    rw (there, take_back-live s.mappings s.mb_mapping found),
    record { context = h.context; mapping = inl refl; running = h.running },
    refl,
  )
]

release_context-IsSafe : (s : ModbusHandler) → IsSafe s → Goes s (release_context s)
release_context-IsSafe s h = elim (Bool-cases (s.ctx ==ℤ null)) [
  | inl nothing ↦ (s, rw nothing refl, h, refl)
  | inr there ↦ elim h.context [
    | inl e ↦ absurd (cc ((==ℤ_iff s.ctx null).1 e))
    | inr (v, found) ↦ (
      record s { contexts = erase_key s.contexts s.ctx; ctx = null },
      rw (there, take_back-live s.contexts s.ctx found),
      record { context = inl refl; mapping = h.mapping; running = h.running },
      refl,
    )
  ]
]

release-IsSafe :
    (s : ModbusHandler) → IsSafe s → InPhase (threads_of s) idle → Goes s (modbus_handler_release s)
unfolding modbus_handler_release
release-IsSafe s h (stopped, nobody) =
    let (s₁, e₁, h₁, same₁) = release_mapping-IsSafe s h in
    let (s₂, e₂, h₂, same₂) = release_context-IsSafe s₁ h₁ in
    let free : in_use s ≡ false =
      ap (λ threads. elim threads [ [] ↦ false | t ∷ rest ↦ true ]) nobody in
    let whole : modbus_handler_release s ≡ (release_mapping s >>= release_context) =
      ap (λ b. if b && frees s then err undefined else (release_mapping s >>= release_context))
        free in
    let through : (release_mapping s >>= release_context) ≡ ok s₂ = rw e₁ e₂ in
    (s₂, whole ∙ through, h₂, same₂ ∙ same₁)

-- A call that leaves a safe handler in the phase that follows.
abbrev GoesTo : Result ModbusHandler → Phase → Type 0
GoesTo r phase = (s' : ModbusHandler) × (r ≡ ok s') × IsSafe s' × InPhase (threads_of s') phase

stays :
    (s : ModbusHandler) (r : Result ModbusHandler) (phase : Phase)
    → Goes s r
    → InPhase (threads_of s) phase
    → GoesTo r phase
stays s r phase (s', e, h, same) p =
    (s', e, h, subst (λ threads. InPhase threads phase) (sym same) p)

erase_both :
    (t u : ℤ)
    → (t ==ℤ u) ≡ false
    → erase_key {V = Unit {0}} (erase_key ((t, tt) ∷ (u, tt) ∷ []) t) u ≡ []
unfolding erase_key
erase_both t u e = ground (arith, ==ℤ_refl t, ==ℤ_refl u, ==ℤ_iff t u, ==ℤ_iff u t, e)

put_both :
    (t u : ℤ)
    → (t ==ℤ u) ≡ false
    → put_key {V = Unit {0}} (put_key [] t tt) u tt ≡ (t, tt) ∷ (u, tt) ∷ []
unfolding put_key
put_both t u e = rw e refl

-- After the two threads are joined.
abbrev joined_both : ModbusHandler → ModbusHandler
joined_both s = record s {
  g_task_running = false;
  g_server_task_thread = pos 0;
  g_config_task_thread = pos 0;
  threads = erase_key (erase_key s.threads s.g_server_task_thread) s.g_config_task_thread;
}

stop-running :
    (s : ModbusHandler)
    → IsSafe s
    → s.g_task_running ≡ true
    → (modbus_handler_stop s ≡ ok (joined_both s)) × IsSafe (joined_both s)
unfolding modbus_handler_stop
stop-running s h on =
    let ((v, e₁), (v', e₂), different) = h.running on in
    let left : find_key (erase_key s.threads s.g_server_task_thread) s.g_config_task_thread
        ≡ some v' =
      find-erase s.threads s.g_server_task_thread s.g_config_task_thread ∙ rw different e₂ in
    (
      rw
          (
            on,
            take_back-live s.threads s.g_server_task_thread e₁,
            take_back-live (erase_key s.threads s.g_server_task_thread) s.g_config_task_thread left,
          )
          refl,
      record { context = h.context; mapping = h.mapping; running = λ t. cc },
    )

stop-GoesTo :
    (s : ModbusHandler) (phase : Phase)
    → IsSafe s
    → InPhase (threads_of s) phase
    → GoesTo (modbus_handler_stop s) (next phase stop_call)
unfolding modbus_handler_stop
stop-GoesTo s idle h (stopped, nobody) = (s, rw stopped refl, h, (stopped, nobody))
stop-GoesTo s stuck h p = elim (Bool-cases s.g_task_running) [
  | inl on ↦ let (e, h') = stop-running s h on in (joined_both s, e, h', tt)
  | inr still ↦ (s, rw still refl, h, tt)
]
stop-GoesTo s working h (on, both, different) =
    let (e, h') = stop-running s h on in
    (
      joined_both s,
      e,
      h',
      (
        refl,
        ap (λ threads. erase_key (erase_key threads s.g_server_task_thread) s.g_config_task_thread)
              both
            ∙ erase_both s.g_server_task_thread s.g_config_task_thread different,
      ),
    )

if-IsSafe :
    (b : Bool) {s s' : ModbusHandler}
    → IsSafe s
    → ((b ≡ false) → IsSafe s')
    → IsSafe (if b then s else s')
if-IsSafe true h k = h
if-IsSafe false h k = k refl

start-IsSafe :
    (s : ModbusHandler) (first second : Option ℤ)
    → IsSafe s
    → Expected (start_call first second)
    → IsSafe (modbus_handler_start s first second)
unfolding modbus_handler_start
start-IsSafe s none second h good =
    if-IsSafe s.g_task_running h
      (λ still. record { context = h.context; mapping = h.mapping; running = λ t. cc })
start-IsSafe s (some t) none h good =
    if-IsSafe s.g_task_running h
      (λ still. record { context = h.context; mapping = h.mapping; running = λ t. cc })
start-IsSafe s (some t) (some u) h good = if-IsSafe s.g_task_running h (λ still. record {
  context = h.context;
  mapping = h.mapping;
  running = λ on. (
    (tt, put-still (put_key s.threads t tt) t u (put-IsLive s.threads t tt)),
    (tt, put-IsLive (put_key s.threads t tt) u tt),
    good,
  );
})

start-GoesTo :
    (s : ModbusHandler) (phase : Phase) (first second : Option ℤ)
    → IsSafe s
    → Expected (start_call first second)
    → InPhase (threads_of s) phase
    → GoesTo (ok (modbus_handler_start s first second)) (next phase (start_call first second))
unfolding modbus_handler_start
start-GoesTo s idle none second h good (stopped, nobody) = (
  record s { g_task_running = false },
  rw stopped refl,
  record { context = h.context; mapping = h.mapping; running = λ on. cc },
  (refl, nobody),
)
start-GoesTo s idle (some t) none h good p =
    (modbus_handler_start s (some t) none, refl, start-IsSafe s (some t) none h good, tt)
start-GoesTo s idle (some t) (some u) h good (stopped, nobody) =
    let e : modbus_handler_start s (some t) (some u) ≡ record s {
      g_task_running = true;
      g_server_task_thread = t;
      g_config_task_thread = u;
      threads = put_key (put_key s.threads t tt) u tt;
    } =
      rw stopped refl in
    (
      modbus_handler_start s (some t) (some u),
      refl,
      start-IsSafe s (some t) (some u) h good,
      subst (λ x. InPhase (threads_of x) working) (sym e)
          (
            refl,
            ap (λ threads. put_key (put_key threads t tt) u tt) nobody ∙ put_both t u good,
            good,
          ),
    )
start-GoesTo s working none second h good (on, both, apart) = (s, rw on refl, h, (on, both, apart))
start-GoesTo s working (some t) none h good (on, both, apart) =
    (s, rw on refl, h, (on, both, apart))
start-GoesTo s working (some t) (some u) h good (on, both, apart) =
    (s, rw on refl, h, (on, both, apart))
start-GoesTo s stuck first second h good p =
    (modbus_handler_start s first second, refl, start-IsSafe s first second h good, tt)

-- Each call.
perform-GoesTo :
    (s : ModbusHandler) (phase : Phase) (c : Call)
    → Fits phase c
    → IsSafe s
    → Expected c
    → InPhase (threads_of s) phase
    → GoesTo (perform s c) (next phase c)
perform-GoesTo s idle (init_call context mapping) fits h good p =
    stays s _ idle (init-IsSafe s context mapping h good) p
perform-GoesTo s idle release_call fits h good p = stays s _ idle (release-IsSafe s h p) p
perform-GoesTo s working (init_call context mapping) fits h good p = elim fits [ ]
perform-GoesTo s working release_call fits h good p = elim fits [ ]
perform-GoesTo s stuck (init_call context mapping) fits h good p = elim fits [ ]
perform-GoesTo s stuck release_call fits h good p = elim fits [ ]
perform-GoesTo s idle (set_ireg_call reg value) fits h good p =
    stays s _ idle (set_ireg-IsSafe s h reg good value) p
perform-GoesTo s idle (set_hreg_call reg value) fits h good p =
    stays s _ idle (set_hreg-IsSafe s h reg good value) p
perform-GoesTo s idle (get_ireg_call reg) fits h good p =
    let (value, e) = get_ireg-ok s h reg good in (s, rw e refl, h, p)
perform-GoesTo s idle (get_hreg_call reg) fits h good p =
    let (value, e) = get_hreg-ok s h reg good in (s, rw e refl, h, p)
perform-GoesTo s idle stop_call fits h good p = stop-GoesTo s idle h p
perform-GoesTo s idle (start_call first second) fits h good p =
    start-GoesTo s idle first second h good p
perform-GoesTo s working (set_ireg_call reg value) fits h good p =
    stays s _ working (set_ireg-IsSafe s h reg good value) p
perform-GoesTo s working (set_hreg_call reg value) fits h good p =
    stays s _ working (set_hreg-IsSafe s h reg good value) p
perform-GoesTo s working (get_ireg_call reg) fits h good p =
    let (value, e) = get_ireg-ok s h reg good in (s, rw e refl, h, p)
perform-GoesTo s working (get_hreg_call reg) fits h good p =
    let (value, e) = get_hreg-ok s h reg good in (s, rw e refl, h, p)
perform-GoesTo s working stop_call fits h good p = stop-GoesTo s working h p
perform-GoesTo s working (start_call first second) fits h good p =
    start-GoesTo s working first second h good p
perform-GoesTo s stuck (set_ireg_call reg value) fits h good p =
    stays s _ stuck (set_ireg-IsSafe s h reg good value) p
perform-GoesTo s stuck (set_hreg_call reg value) fits h good p =
    stays s _ stuck (set_hreg-IsSafe s h reg good value) p
perform-GoesTo s stuck (get_ireg_call reg) fits h good p =
    let (value, e) = get_ireg-ok s h reg good in (s, rw e refl, h, p)
perform-GoesTo s stuck (get_hreg_call reg) fits h good p =
    let (value, e) = get_hreg-ok s h reg good in (s, rw e refl, h, p)
perform-GoesTo s stuck stop_call fits h good p = stop-GoesTo s stuck h p
perform-GoesTo s stuck (start_call first second) fits h good p =
    start-GoesTo s stuck first second h good p

-- Let a handler be safe and its threads as its phase says, such as a new one, which is idle. Any calls go
-- through, and leave the handler safe, where `init` and `release` are called only while no thread of the
-- handler runs, the mapping is had with the context in each `init`, the two threads of a `start` are
-- different ones, and each register's number is from 0 to 99: no pointer dangles, nothing is freed that a
-- thread of the server may use, no allocation is freed twice, and no thread is joined that is not there.
pub perform_all-IsSafe :
    (s : ModbusHandler) (phase : Phase) (calls : List Call)
    → IsSafe s
    → InPhase (threads_of s) phase
    → Orderly phase calls
    → All Expected calls
    → (s' : ModbusHandler) × (perform_all s calls ≡ ok s') × IsSafe s'
perform_all-IsSafe s phase [] h p orderly good = (s, refl, h)
perform_all-IsSafe s phase (c ∷ calls) h p (fits, orderly) (first, rest) =
    let (s₁, e₁, h₁, p₁) = perform-GoesTo s phase c fits h first p in
    let (s₂, e₂, h₂) = perform_all-IsSafe s₁ (next phase c) calls h₁ p₁ orderly rest in
    (s₂, rw e₁ e₂, h₂)
