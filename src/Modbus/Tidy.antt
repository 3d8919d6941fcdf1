-- ===== src/Modbus/Tidy.antt =====
-- src/_modbus/modbus_handler.c: the server's task ends once `g_task_running` is false, and what it has done
-- with its sockets then.
use multi_cctv_object_detect.Prelude.{ℤ, true, List, [], ◌∷◌, Option, none, some, ◌≡◌}
use multi_cctv_object_detect.Modbus.Tasks.{
  Received, no_return, Reading, SocketEvent, accepted, replied, closed, TaskLoop, accepting,
  serving,
}

-- The task replies to a client between accepting it and closing its socket, which it does before it
-- accepts another one; at the end it closes the server's socket. `client` is the one that is served.
abbrev pub Tidy : ℤ → Option ℤ → List SocketEvent → Type 0
Tidy server client [] = ⊥
Tidy server none (accepted s ∷ events) = Tidy server (some s) events
Tidy server none (replied request rc ∷ events) = ⊥
Tidy server none (closed s ∷ []) = s ≡ server
Tidy server none (closed s ∷ e ∷ events) = ⊥
Tidy server (some c) (accepted s ∷ events) = ⊥
Tidy server (some c) (replied request rc ∷ events) = Tidy server (some c) events
Tidy server (some c) (closed s ∷ events) = (s ≡ c) × Tidy server none events

abbrev Returns : Received → Type 0
Returns no_return = ⊥
Returns _ = Unit

-- The flag is still true, and `modbus_receive` returns.
abbrev pub IsRunning : Reading → Type 0
IsRunning r = (r.g_task_running ≡ true) × Returns r.received

abbrev client_of : TaskLoop → Option ℤ
client_of accepting = none
client_of (serving s) = some s

-- The rest of the task ends and is tidy.
abbrev EndsTidy : ℤ → TaskLoop → Option (List SocketEvent) → Type 0
EndsTidy server loop result =
    (events : List SocketEvent) × (result ≡ some events) × Tidy server (client_of loop) events
