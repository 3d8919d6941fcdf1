-- ===== src/Modbus.antt =====
-- src/_modbus/modbus_handler.c: the life cycle of the Modbus server and the access to its registers.
-- The global pointers are addresses, and what libmodbus and pthread have handed out and not taken back
-- is kept beside them: to free a context or a mapping that is not there, or to join such a thread, is
-- undefined. What an allocation or `pthread_create` answers is an argument.
pub mod Calls
pub mod Registers
pub mod Safe
pub mod Tasks
pub mod Tidy
use multi_cctv_object_detect.Prelude.{
  ℕ, zero, suc, ℤ, pos, negsuc, ◌+◌, ◌<◌, Bool, true, false, not, ◌&&◌, List, [], ◌∷◌, Option, none,
  some, length, ltb, get_elem?, set_elem, if◌then◌else◌, ◌==ℤ◌, find_key, put_key, erase_key,
  Result, ok, err, undefined, or_undefined, ◌>>=◌,
}

-- `modbus_mapping_t`: the two tables that are allocated with a size.
pub record Mapping : Type 0 where
  pub tab_registers : List ℕ
  pub tab_input_registers : List ℕ

abbrev pub null : ℤ
null = pos 0

pub record ModbusHandler : Type 0 where
  pub g_task_running : Bool
  pub g_server_task_thread : ℤ
  pub g_config_task_thread : ℤ
  pub ctx : ℤ
  pub mb_mapping : ℤ
  pub contexts : List (ℤ × Unit {0})
  pub mappings : List (ℤ × Mapping)
  pub threads : List (ℤ × Unit {0})

abbrev pub new_handler : ModbusHandler
new_handler = record {
  g_task_running = false;
  g_server_task_thread = pos 0;
  g_config_task_thread = pos 0;
  ctx = null;
  mb_mapping = null;
  contexts = [];
  mappings = [];
  threads = [];
}

-- Takes back what was handed out under a key.
abbrev pub take_back {ℓ} : {V : Type ℓ} → List (ℤ × V) → ℤ → Result (List (ℤ × V))
take_back live a = elim (find_key live a) [ none ↦ err undefined | some v ↦ ok (erase_key live a) ]

-- `table[reg]` read and written, with no test of the index.
abbrev pub read_at : List ℕ → ℤ → Result ℕ
read_at table (pos i) = or_undefined (get_elem? table i)
read_at table (negsuc i) = err undefined

abbrev pub write_at : List ℕ → ℤ → ℕ → Result (List ℕ)
write_at table (pos i) value =
    if ltb i (length table) then ok (set_elem table i value) else err undefined
write_at table (negsuc i) value = err undefined

-- `tab_registers[i] = 0` from `i` on, with `n` rounds left.
unfoldable pub clear_registers : List ℕ → ℕ → ℕ → Result (List ℕ)
clear_registers table i zero = ok table
clear_registers table i (suc n) =
    write_at table (pos i) 0 >>= λ table'. clear_registers table' (suc i) n

-- `modbus_handler_init`, with the answers of `modbus_new_tcp` and `modbus_mapping_new`.
unfoldable pub modbus_handler_init :
    ModbusHandler → Option ℤ → Option (ℤ × Mapping) → Result ModbusHandler
unfolding clear_registers
modbus_handler_init s none answer = ok (record s { ctx = null })
modbus_handler_init s (some c) none = take_back (put_key s.contexts c tt) c >>= λ contexts.
    ok (record s { ctx = c; contexts = contexts; mb_mapping = null })
modbus_handler_init s (some c) (some (a, m)) = clear_registers m.tab_registers 0 100 >>= λ table.
    ok (record s {
      ctx = c;
      contexts = put_key s.contexts c tt;
      mb_mapping = a;
      mappings = put_key s.mappings a (record m { tab_registers = table });
    })

abbrev pub release_mapping : ModbusHandler → Result ModbusHandler
release_mapping s =
    if s.mb_mapping ==ℤ null
    then ok s
    else (take_back s.mappings s.mb_mapping >>= λ mappings.
        ok (record s { mappings = mappings; mb_mapping = null }))

abbrev pub release_context : ModbusHandler → Result ModbusHandler
release_context s =
    if s.ctx ==ℤ null
    then ok s
    else (take_back s.contexts s.ctx >>= λ contexts.
        ok (record s { contexts = contexts; ctx = null }))

-- The thread of the server's task uses `ctx` and `mb_mapping` in `modbus_tcp_accept`, `modbus_receive` and
-- `modbus_reply` until it is joined.
abbrev pub in_use : ModbusHandler → Bool
in_use s = elim s.threads [ [] ↦ false | t ∷ threads ↦ true ]

abbrev pub frees : ModbusHandler → Bool
frees s = not (s.mb_mapping ==ℤ null && s.ctx ==ℤ null)

-- What is freed while a thread may use it is undefined.
unfoldable pub modbus_handler_release : ModbusHandler → Result ModbusHandler
modbus_handler_release s =
    if in_use s && frees s then err undefined else (release_mapping s >>= release_context)

-- With the threads that `pthread_create` makes for the server and for the configuration, if any.
unfoldable pub modbus_handler_start : ModbusHandler → Option ℤ → Option ℤ → ModbusHandler
modbus_handler_start s none second =
    if s.g_task_running then s else record s { g_task_running = false }
modbus_handler_start s (some t) none = if s.g_task_running then s else record s {
  g_task_running = false;
  g_server_task_thread = t;
  threads = put_key s.threads t tt;
}
modbus_handler_start s (some t) (some u) = if s.g_task_running then s else record s {
  g_task_running = true;
  g_server_task_thread = t;
  g_config_task_thread = u;
  threads = put_key (put_key s.threads t tt) u tt;
}

unfoldable pub modbus_handler_stop : ModbusHandler → Result ModbusHandler
modbus_handler_stop s =
    if s.g_task_running
    then (take_back s.threads s.g_server_task_thread >>= λ threads.
        take_back threads s.g_config_task_thread >>= λ threads'. ok (record s {
          g_task_running = false;
          g_server_task_thread = pos 0;
          g_config_task_thread = pos 0;
          threads = threads';
        }))
    else ok s

-- `*mb_mapping`
abbrev pub mapping_of : ModbusHandler → Result Mapping
mapping_of s = or_undefined (find_key s.mappings s.mb_mapping)

abbrev pub put_mapping : ModbusHandler → Mapping → ModbusHandler
put_mapping s m = record s { mappings = put_key s.mappings s.mb_mapping m }

unfoldable pub modbus_handler_set_ireg : ModbusHandler → ℤ → ℕ → Result ModbusHandler
modbus_handler_set_ireg s reg value =
    if s.mb_mapping ==ℤ null
    then ok s
    else (mapping_of s >>= λ m. write_at m.tab_input_registers reg value >>= λ table.
        ok (put_mapping s (record m { tab_input_registers = table })))

unfoldable pub modbus_handler_set_hreg : ModbusHandler → ℤ → ℕ → Result ModbusHandler
modbus_handler_set_hreg s reg value =
    if s.mb_mapping ==ℤ null
    then ok s
    else (mapping_of s >>= λ m. write_at m.tab_registers reg value >>= λ table.
        ok (put_mapping s (record m { tab_registers = table })))

unfoldable pub modbus_handler_get_hreg : ModbusHandler → ℤ → Result ℕ
modbus_handler_get_hreg s reg =
    if s.mb_mapping ==ℤ null then ok 0 else (mapping_of s >>= λ m. read_at m.tab_registers reg)

unfoldable pub modbus_handler_get_ireg : ModbusHandler → ℤ → Result ℕ
modbus_handler_get_ireg s reg =
    if s.mb_mapping ==ℤ null
    then ok 0
    else (mapping_of s >>= λ m. read_at m.tab_input_registers reg)
