-- ===== src/Modbus/Registers.antt =====
-- src/_modbus/modbus_handler.c: the reading and writing of a safe handler's registers.
use multi_cctv_object_detect.Prelude.{ℕ, ℤ, ◌≡◌, inl, inr, refl, ok}
use multi_cctv_object_detect.Modbus.{
  ModbusHandler, put_mapping, modbus_handler_set_ireg, modbus_handler_set_hreg,
  modbus_handler_get_hreg, modbus_handler_get_ireg,
}
use multi_cctv_object_detect.Modbus.Calls.{
  IsSafe, IsRegister, write_at-length, read_at-ok, mapping-cases, put_mapping-IsSafe, Goes,
}

module _ (s : ModbusHandler) (h : IsSafe s) (reg : ℤ) (in_range : IsRegister reg) where
  pub set_ireg-IsSafe : (value : ℕ) → Goes s (modbus_handler_set_ireg s reg value)
  unfolding modbus_handler_set_ireg
  set_ireg-IsSafe value = elim (mapping-cases s h) [
    | inl nothing ↦ (s, rw nothing refl, h, refl)
    | inr (m, there, _, e, sizes) ↦
        let (table, e', size) =
          write_at-length m.tab_input_registers reg value in_range sizes.input_registers in
        let m' = record m { tab_input_registers = table } in
        (
          put_mapping s m',
          rw (there, e, e') refl,
          put_mapping-IsSafe s m' h
              (record { registers = sizes.registers; input_registers = size }),
          refl,
        )
  ]

  pub set_hreg-IsSafe : (value : ℕ) → Goes s (modbus_handler_set_hreg s reg value)
  unfolding modbus_handler_set_hreg
  set_hreg-IsSafe value = elim (mapping-cases s h) [
    | inl nothing ↦ (s, rw nothing refl, h, refl)
    | inr (m, there, _, e, sizes) ↦
        let (table, e', size) =
          write_at-length m.tab_registers reg value in_range sizes.registers in
        let m' = record m { tab_registers = table } in
        (
          put_mapping s m',
          rw (there, e, e') refl,
          put_mapping-IsSafe s m' h
              (record { registers = size; input_registers = sizes.input_registers }),
          refl,
        )
  ]

  pub get_ireg-ok : (value : ℕ) × (modbus_handler_get_ireg s reg ≡ ok value)
  unfolding modbus_handler_get_ireg
  get_ireg-ok = elim (mapping-cases s h) [
    | inl nothing ↦ (0, rw nothing refl)
    | inr (m, there, _, e, sizes) ↦
        let (value, e') = read_at-ok m.tab_input_registers reg in_range sizes.input_registers in
        (value, rw (there, e, e'))
  ]

  pub get_hreg-ok : (value : ℕ) × (modbus_handler_get_hreg s reg ≡ ok value)
  unfolding modbus_handler_get_hreg
  get_hreg-ok = elim (mapping-cases s h) [
    | inl nothing ↦ (0, rw nothing refl)
    | inr (m, there, _, e, sizes) ↦
        let (value, e') = read_at-ok m.tab_registers reg in_range sizes.registers in
        (value, rw (there, e, e'))
  ]
