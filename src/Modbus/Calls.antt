-- ===== src/Modbus/Calls.antt =====
-- src/_modbus/modbus_handler.c: its calls, and what keeps them safe.
use multi_cctv_object_detect.Prelude.{
  ℕ, zero, suc, ℤ, pos, negsuc, ◌+◌, ◌<◌, ◌≤◌, Bool, true, false, List, [], ◌∷◌, ◌≡◌, ◌⊎◌, inl, inr,
  refl, ◌∙◌, Option, none, some, arith, length, length-set_elem, ltb, set_elem, ◌==ℤ◌, ==ℤ_iff,
  ==ℤ_refl, Bool-cases, find_key, put_key, erase_key, find-put, get_elem?-some, Result, ok, err,
  undefined, ◌>>=◌,
}
use multi_cctv_object_detect.Modbus.{
  Mapping, null, ModbusHandler, take_back, read_at, write_at, clear_registers, modbus_handler_init,
  modbus_handler_release, modbus_handler_start, modbus_handler_stop, put_mapping, mapping_of,
  modbus_handler_set_ireg, modbus_handler_set_hreg, modbus_handler_get_hreg,
  modbus_handler_get_ireg,
}

-- What the two calls of libmodbus hand out: a mapping has the tables that were asked for.
pub record IsMapping (m : Mapping) : Type 0 where
  pub registers : length m.tab_registers ≡ 100
  pub input_registers : length m.tab_input_registers ≡ 100

abbrev IsLive {ℓ} : {V : Type ℓ} → List (ℤ × V) → ℤ → Type ℓ
IsLive live a = (v : _) × (find_key live a ≡ some v)

-- Each pointer is null or points to what it should, and a server that runs has its two threads.
pub record IsSafe (s : ModbusHandler) : Type 0 where
  pub context : (s.ctx ≡ null) ⊎ IsLive s.contexts s.ctx
  pub mapping :
      (s.mb_mapping ≡ null)
      ⊎ ((m : Mapping) × (find_key s.mappings s.mb_mapping ≡ some m) × IsMapping m)
  pub running :
      s.g_task_running ≡ true
      → IsLive s.threads s.g_server_task_thread
        × IsLive s.threads s.g_config_task_thread
        × ((s.g_server_task_thread ==ℤ s.g_config_task_thread) ≡ false)

abbrev pub IsRegister : ℤ → Type 0
IsRegister (pos i) = i < 100
IsRegister (negsuc i) = ⊥

-- A call of the handler with the answers that it gets.
pub data Call : Type 0 where
  init_call : Option ℤ → Option (ℤ × Mapping) → Call
  release_call stop_call : Call
  start_call : Option ℤ → Option ℤ → Call
  set_ireg_call set_hreg_call : ℤ → ℕ → Call
  get_ireg_call get_hreg_call : ℤ → Call

abbrev pub perform : ModbusHandler → Call → Result ModbusHandler
perform s (init_call context mapping) = modbus_handler_init s context mapping
perform s release_call = modbus_handler_release s
perform s stop_call = modbus_handler_stop s
perform s (start_call first second) = ok (modbus_handler_start s first second)
perform s (set_ireg_call reg value) = modbus_handler_set_ireg s reg value
perform s (set_hreg_call reg value) = modbus_handler_set_hreg s reg value
perform s (get_ireg_call reg) = modbus_handler_get_ireg s reg >>= λ value. ok s
perform s (get_hreg_call reg) = modbus_handler_get_hreg s reg >>= λ value. ok s

abbrev pub perform_all : ModbusHandler → List Call → Result ModbusHandler
perform_all s [] = ok s
perform_all s (c ∷ calls) = perform s c >>= λ s'. perform_all s' calls

-- The calls that the handler expects: a mapping is had wherever a context is, the two threads are
-- different ones, and a register's number is from 0 to 99.
abbrev pub Expected : Call → Type 0
Expected (init_call none mapping) = Unit
Expected (init_call (some c) none) = ⊥
Expected (init_call (some c) (some (a, m))) = IsMapping m
Expected release_call = Unit
Expected stop_call = Unit
Expected (start_call (some t) (some u)) = (t ==ℤ u) ≡ false
Expected (start_call _ _) = Unit
Expected (set_ireg_call reg value) = IsRegister reg
Expected (set_hreg_call reg value) = IsRegister reg
Expected (get_ireg_call reg) = IsRegister reg
Expected (get_hreg_call reg) = IsRegister reg

pub put-IsLive {ℓ} :
    {V : Type ℓ} (live : List (ℤ × V)) (a : ℤ) (v : V) → find_key (put_key live a v) a ≡ some v
put-IsLive live a v = find-put live a v a ∙ rw (==ℤ_refl a)

pub write_at-length :
    (table : List ℕ) (reg : ℤ) (value : ℕ)
    → IsRegister reg
    → length table ≡ 100
    → (table' : List ℕ) × (write_at table reg value ≡ ok table') × (length table' ≡ 100)
write_at-length table (negsuc i) value h size = elim h [ ]
write_at-length table (pos i) value h size =
    let inside : ltb i (length table) ≡ true = ground arith in
    (set_elem table i value, rw inside refl, length-set_elem table i value ∙ size)

pub read_at-ok :
    (table : List ℕ) (reg : ℤ)
    → IsRegister reg
    → length table ≡ 100
    → (value : ℕ) × (read_at table reg ≡ ok value)
read_at-ok table (negsuc i) h size = elim h [ ]
read_at-ok table (pos i) h size =
    let (value, e) = get_elem?-some table i (omega (arith, h, size)) in (value, rw e)

pub clear_registers-length :
    (table : List ℕ) (i n : ℕ)
    → i + n ≤ 100
    → length table ≡ 100
    → (table' : List ℕ) × (clear_registers table i n ≡ ok table') × (length table' ≡ 100)
unfolding clear_registers
clear_registers-length table i zero h size = (table, refl, size)
clear_registers-length table i (suc n) h size =
    let (table₁, e₁, size₁) = write_at-length table (pos i) 0 (omega (arith, h)) size in
    let (table₂, e₂, size₂) = clear_registers-length table₁ (suc i) n (omega (arith, h)) size₁ in
    (table₂, rw e₁ e₂, size₂)

pub take_back-live {ℓ} :
    {V : Type ℓ} (live : List (ℤ × V)) (a : ℤ) {v : V}
    → find_key live a ≡ some v
    → take_back live a ≡ ok (erase_key live a)
take_back-live live a e = rw (e, take_back)

pub take_back-gone {ℓ} :
    {V : Type ℓ} (live : List (ℤ × V)) (a : ℤ)
    → find_key live a ≡ none
    → take_back live a ≡ err undefined
take_back-gone live a e = rw (e, take_back)

pub put-still :
    (live : List (ℤ × Unit {0})) (a b : ℤ)
    → find_key live a ≡ some tt
    → find_key (put_key live b tt) a ≡ some tt
put-still live a b e = elim (Bool-cases (b ==ℤ a)) [
  | inl same ↦ find-put live b tt a ∙ rw same refl
  | inr other ↦ find-put live b tt a ∙ rw other e
]

-- A safe handler has no mapping, or one with its tables.
pub mapping-cases :
    (s : ModbusHandler)
    → IsSafe s
    → ((s.mb_mapping ==ℤ null) ≡ true)
      ⊎ ((m : Mapping) × ((s.mb_mapping ==ℤ null) ≡ false)
          × (find_key s.mappings s.mb_mapping ≡ some m)
          × (mapping_of s ≡ ok m)
          × IsMapping m)
mapping-cases s h = elim (Bool-cases (s.mb_mapping ==ℤ null)) [
  | inl nothing ↦ inl nothing
  | inr there ↦ elim h.mapping [
    | inl e ↦ absurd (cc ((==ℤ_iff s.mb_mapping null).1 e))
    | inr (m, found, sizes) ↦ inr (m, there, found, rw found, sizes)
  ]
]

pub put_mapping-IsSafe :
    (s : ModbusHandler) (m : Mapping) → IsSafe s → IsMapping m → IsSafe (put_mapping s m)
put_mapping-IsSafe s m h sizes = record {
  context = h.context;
  mapping = inr (m, put-IsLive s.mappings s.mb_mapping m, sizes);
  running = h.running;
}

-- What concerns the threads, in the state of the handler.
abbrev pub Threads : Type 0
Threads = Bool × ℤ × ℤ × List (ℤ × Unit {0})

abbrev pub threads_of : ModbusHandler → Threads
threads_of s = (s.g_task_running, s.g_server_task_thread, s.g_config_task_thread, s.threads)

-- A call that leaves a safe handler, and its threads as they were.
abbrev pub Goes : ModbusHandler → Result ModbusHandler → Type 0
Goes s r = (s' : ModbusHandler) × (r ≡ ok s') × IsSafe s' × (threads_of s' ≡ threads_of s)

-- No thread is there, the two that `start` makes are, or one may be that nothing joins.
pub data Phase : Type 0 where
  idle working stuck : Phase

abbrev pub next : Phase → Call → Phase
next idle (start_call (some t) (some u)) = working
next idle (start_call (some t) none) = stuck
next idle c = idle
next working stop_call = idle
next working c = working
next stuck c = stuck

-- `init` and `release` are called only where no thread is there.
abbrev pub Fits : Phase → Call → Type 0
Fits idle c = Unit
Fits working (init_call context mapping) = ⊥
Fits working release_call = ⊥
Fits working c = Unit
Fits stuck (init_call context mapping) = ⊥
Fits stuck release_call = ⊥
Fits stuck c = Unit

abbrev pub Orderly : Phase → List Call → Type 0
Orderly phase [] = Unit
Orderly phase (c ∷ calls) = Fits phase c × Orderly (next phase c) calls

abbrev pub InPhase : Threads → Phase → Type 0
InPhase (running, t, u, threads) idle = (running ≡ false) × (threads ≡ [])
InPhase (running, t, u, threads) working =
    (running ≡ true) × (threads ≡ (t, tt) ∷ (u, tt) ∷ []) × ((t ==ℤ u) ≡ false)
InPhase (running, t, u, threads) stuck = Unit
