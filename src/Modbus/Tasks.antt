-- ===== src/Modbus/Tasks.antt =====
-- src/_modbus/modbus_handler.c: the two tasks that `modbus_handler_start` runs in threads, and their
-- `delay`. Each reading of `g_task_running` stands with what libmodbus answers next.
use multi_cctv_object_detect.Prelude.{
  ℕ, suc, ◌*◌, ◌/◌, ◌%◌, ℤ, negsuc, ◌==ℤ◌, Bool, ◌||◌, List, [], ◌∷◌, Option, none, some, Bytes,
  if◌then◌else◌,
}

-- What `modbus_receive` gives: -1 with an `errno` that is EAGAIN or EWOULDBLOCK, ECONNRESET or another
-- one, or the query with its length; or it waits and does not return.
pub data Received : Type 0 where
  would_block connection_reset other_error no_return : Received
  query : Bytes → ℤ → Received

-- A reading of `g_task_running`, the answer of `modbus_tcp_accept` if it is called then, and that of
-- `modbus_receive` if that is.
pub record Reading : Type 0 where
  pub g_task_running : Bool
  pub client_socket : ℤ
  pub received : Received

pub data SocketEvent : Type 0 where
  accepted : ℤ → SocketEvent
  replied : Bytes → ℤ → SocketEvent
  closed : ℤ → SocketEvent

-- The loop that waits for clients, and the one that serves a client.
pub data TaskLoop : Type 0 where
  accepting : TaskLoop
  serving : ℤ → TaskLoop

abbrev pub after_event : SocketEvent → Option (List SocketEvent) → Option (List SocketEvent)
after_event e none = none
after_event e (some events) = some (e ∷ events)

-- `minus_eagain` is `-EAGAIN`.
abbrev pub no_client : ℤ → ℤ → Bool
no_client minus_eagain client_socket = client_socket ==ℤ negsuc 0 || client_socket ==ℤ minus_eagain

-- What follows `modbus_receive`, with what follows where the loop goes on and where it is left.
abbrev pub after_receive :
    Received → Option (List SocketEvent) → Option (List SocketEvent) → Option (List SocketEvent)
after_receive would_block going_on left = going_on
after_receive connection_reset going_on left = left
after_receive other_error going_on left = left
after_receive no_return going_on left = none
after_receive (query request rc) going_on left = after_event (replied request rc) going_on

-- The rest of the task from a loop on: what it does with sockets until it ends; `none` where the
-- readings do not suffice, or a call waits for ever.
unfoldable pub task_loops : ℤ → ℤ → TaskLoop → List Reading → Option (List SocketEvent)
task_loops minus_eagain server_socket loop [] = none
task_loops minus_eagain server_socket accepting (r ∷ readings) =
    let waiting = task_loops minus_eagain server_socket accepting readings in
    let served = task_loops minus_eagain server_socket (serving r.client_socket) readings in
    if r.g_task_running
    then (if no_client minus_eagain r.client_socket
        then waiting
        else after_event (accepted r.client_socket) served)
    else some (closed server_socket ∷ [])
task_loops minus_eagain server_socket (serving client_socket) (r ∷ readings) =
    let going_on = task_loops minus_eagain server_socket (serving client_socket) readings in
    let left =
      after_event (closed client_socket)
        (task_loops minus_eagain server_socket accepting readings) in
    if r.g_task_running then after_receive r.received going_on left else left

unfoldable pub modbus_handler_server_task : ℤ → ℤ → List Reading → Option (List SocketEvent)
unfolding task_loops
modbus_handler_server_task minus_eagain server_socket readings =
    if server_socket ==ℤ negsuc 0
    then some []
    else task_loops minus_eagain server_socket accepting readings

-- The count of the waits of a second.
unfoldable modbus_handler_config_task : List Bool → Option ℕ
modbus_handler_config_task [] = none
modbus_handler_config_task (g_task_running ∷ readings) =
    let waits = modbus_handler_config_task readings in
    if g_task_running then elim waits [ none ↦ none | some n ↦ some (suc n) ] else some 0

pub record Timespec : Type 0 where
  pub tv_sec : ℕ
  pub tv_nsec : ℕ

-- `delay`, up to the call of `nanosleep`.
unfoldable delay : ℕ → Timespec
delay milliseconds = record {
  tv_sec = milliseconds / 1000;
  tv_nsec = milliseconds % 1000 * 1_000_000;
}
