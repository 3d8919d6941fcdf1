-- ===== src/Tests/Tasks.antt =====
-- A server that serves one client until it is stopped.
use multi_cctv_object_detect.Prelude.{pos, negsuc, true, false, codes}
use multi_cctv_object_detect.Modbus.Tasks.{would_block, query, Reading}
use multi_cctv_object_detect.Modbus.Tidy.{Tidy}

-- No client, then the client at socket 5 with its query, and then the flag is false.
abbrev waiting : Reading
waiting = record { g_task_running = true; client_socket = negsuc 0; received = would_block }

abbrev coming : Reading
coming = record { g_task_running = true; client_socket = pos 5; received = would_block }

abbrev asking : Reading
asking = record {
  g_task_running = true;
  client_socket = pos 5;
  received = query (codes "read") (pos 4);
}

abbrev stopped : Reading
stopped = record { g_task_running = false; client_socket = negsuc 0; received = would_block }
