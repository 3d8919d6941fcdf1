-- ===== src/Tests/Server.antt =====
-- The Modbus server: a life cycle with its answers, and a mapping that is not had.
use multi_cctv_object_detect.Prelude.{
  pos, List, [], ◌∷◌, ◌≡◌, refl, some, replicate, arith, All, inl, ok,
}
use multi_cctv_object_detect.Modbus.{Mapping, ModbusHandler, new_handler}
use multi_cctv_object_detect.Modbus.Calls.{
  IsMapping, IsSafe, Call, init_call, start_call, stop_call, release_call, set_ireg_call,
  get_hreg_call, perform_all, Expected, Orderly, idle,
}
use multi_cctv_object_detect.Modbus.Safe.{perform_all-IsSafe}

abbrev mapping : Mapping
mapping = record { tab_registers = replicate 100 0; tab_input_registers = replicate 100 0 }

mapping-IsMapping : IsMapping mapping
mapping-IsMapping = record { registers = refl; input_registers = refl }

new_handler-IsSafe : IsSafe new_handler
new_handler-IsSafe = record { context = inl refl; mapping = inl refl; running = λ on. cc }

abbrev life : List Call
life =
    init_call (some (pos 1)) (some (pos 2, mapping))
    ∷ start_call (some (pos 3)) (some (pos 4))
    ∷ set_ireg_call (pos 99) 7
    ∷ get_hreg_call (pos 0)
    ∷ stop_call
    ∷ release_call
    ∷ release_call
    ∷ []

life-Expected : All Expected life
life-Expected = (mapping-IsMapping, (refl, (ground arith, (ground arith, (tt, (tt, (tt, tt)))))))

life-Orderly : Orderly idle life
life-Orderly = (tt, (tt, (tt, (tt, (tt, (tt, (tt, tt)))))))

perform_all-IsSafe_example : (s : ModbusHandler) × (perform_all new_handler life ≡ ok s) × IsSafe s
perform_all-IsSafe_example =
    perform_all-IsSafe new_handler idle life new_handler-IsSafe (refl, refl) life-Orderly
      life-Expected
