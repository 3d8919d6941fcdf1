-- ===== src/Lib.antt =====
-- The alarm system of a program that watches several cameras: a network finds the classes of the
-- objects in each camera's frames, and rules over the classes of the last frames raise alarms, which
-- are published over MQTT for a robot and a nurse station.
--
-- The parts, and how they interact:
-- - src/main.cpp runs one thread for each camera (`routine`). A turn of its loop takes a frame, has the
--   network find the classes, appends them to the channel's history and calls
--   `AlarmManager::process_channel_alarms`. Another thread publishes the staff counts.
-- - src/alarm/alarmManager.cpp cancels, delays or raises alarms: it evaluates the rules of the channel
--   (src/alarm/alarm.cpp, `define_alarm`), publishes (src/mqttManager/mqttManager.cpp), writes the
--   alarm's number to id.bin, and logs (include/config/logHandler.h).
-- - src/config/configHandler.cpp reads the rules from resource/alarm.conf at the start, with the helpers
--   of src/config/Handler.cpp, which turn a condition into postfix form.
-- - src/server/server.cpp takes requests that mute a channel's messages.
-- - include/data_save/directory.h bounds the number of images saved, include/thread_safe/ has the
--   bounded containers for frames.
--
-- The files:
-- - Prelude: lists, numbers, faults and bytes, shared by all. A text is a list of bytes. What the source
--   leaves undefined (an index out of range, a null pointer, an unset member, `top` of an empty stack)
--   or throws (`std::stoi`) is a fault, a value of `Result`. `stoi` and the words that `>>` reads are
--   written after the C++ standard.
-- - Handler (src/config/Handler.cpp): `start_with`, `split`, `strip`, `make_space`, `postfix`.
--   Handler/Words and Handler/Split have the lemmas on words and lines.
-- - Alarm (src/alarm/alarm.cpp, include/alarm/alarm.h, include/global.h): the record of a rule and
--   `define_alarm`, with its stack machine. Alarm/Syntax has the grammar of conditions that the
--   comments of resource/alarm.conf describe, with their text and meaning; Alarm/Tokens, Alarm/Compile
--   and Alarm/Evaluate follow a condition's text through `postfix` and the machine; Alarm/Meaning
--   relates the result to the meaning, Alarm/Misread has conditions that are read otherwise.
-- - AlarmFile (src/config/configHandler.cpp): `read_conf`; AlarmFile/Render writes rules as a file.
-- - AlarmManager (src/alarm/alarmManager.cpp): the manager's state is a record with the members of the
--   class; `process_channel_alarms` is composed of the parts of the source's body. What it changes
--   outside is the record `World`, what it reads from outside (the clock at four places, texts of the
--   time, whether the broker is connected and id.bin opens) is the record `Frame`. AlarmManager/Steps has
--   a call as the steps that threads interleave, AlarmManager/Alone and AlarmManager/Moves relate these
--   to the call as a whole, AlarmManager/Overlap has two calls that meet at `id`.
-- - Boot (src/main.cpp): `main` up to the start of the threads, what a channel's thread reads before its
--   loop, and the turns of all channels' loops.
-- - Routine (src/main.cpp): the loop of one channel's thread as a whole, put together from the camera, the
--   network, the alarms, the label files and the gathered data; Routine/Thread has the thread from its
--   first line on, with a network that may not load.
-- - Camera (src/cctv/getFrame.cpp, src/main.cpp): `getFrame_api`, and what a turn makes of its pictures.
--   Camera/Capture (src/cctv/cctv.cpp) has `connectRTSP` and the capture loop of `CCTV`, which only the
--   earlier main program ran.
-- - Threads (src/main.cpp): the loops of the staff report's thread and of the thread that saves the log,
--   with their readings of `g_running`, the signal handler, and the joins at the end of `main`.
-- - Channel/Watch (src/main.cpp): all turns of one channel's loop. Channel/Labels, Channel/WebFile (src/main.cpp): the labels of the objects, what is drawn, and the file
--   that the web page reads. Channel/Semaphores: the loops of all channels' threads with the two
--   semaphores that they share and `g_running`.
-- - TimeStamp (include/time/timestamp.h): the texts of a local time.
-- - IniHandler (src/config/iniHandler.cpp): `read_ini`, and the cells of the window.
-- - Modbus (src/_modbus/modbus_handler.c): the life cycle of the Modbus server, its registers and its
--   two tasks. Modbus/Calls has the order of the calls that the threads ask for.
-- - Log (include/config/logHandler.h), Mqtt (src/mqttManager/mqttManager.cpp), Server
--   (src/server/server.cpp), Channel (src/main.cpp), ThreadSafe (include/thread_safe/), DataSave
--   (include/data_save/directory.h): the state and the operations of the same names.
--   ThreadSafe/Waiting has the threads that wait in `wait_and_pop`, over what it uses of either
--   container; DataSave/Gather (src/main.cpp) has the files that a channel's thread gathers.
-- - Earlier (src/prev_main.cpp), Legacy (include/legacy/fileServer.h, src/legacy/WindowHandler.cpp): code
--   that the build leaves out.
-- - Inference (src/inference/inference.cpp): what becomes of the network's output. `float` with its
--   operations, `minMaxLoc` and `NMSBoxes` are arguments.
-- - Tests: the data and the runs on which the theorems' hypotheses are seen to hold.
--
-- Bounds. Loops are recursions on lists, but for `to_string`, which runs on fuel: `n` rounds for the
-- number `n`, since each divides by ten, the loops of the two worker threads and the capture loop, of which
-- theorems say how many rounds suffice. `id` is a `uint32_t`, with its wrap-around written out; an `int`
-- read by `stoi` is bounded; the other numbers are counts, times and places in a picture, which are not
-- bounded. `frames_to_check`, which alarm.cpp uses and no file declares, is a parameter of the definitions
-- that use it (`k` in the theorems).
--
-- Not modelled: the network, OpenCV, the http, json and Paho libraries and the file system, whose
-- answers are arguments; output to the console. A call of a member function is one step, and the calls of
-- all channels' threads are one sequence, but for AlarmManager/Steps, where `process_channel_alarms` of
-- several threads interleaves between its locks, also at `id`, which no lock guards,
-- Channel/Semaphores, where the threads' loops interleave, and ThreadSafe/Waiting. `double` and `float` are
-- arguments with their operations. That two threads reach a flag or a register at once, with no lock, is not
-- a fault here; that memory is freed under a thread of the Modbus server is one. The files src/config/ini.c and src/config/INIReader.cpp, with their
-- headers, are a copy of the inih project: what `main` reads through it is an argument.
pub mod Prelude
pub mod Inference
pub mod Handler
pub mod Alarm
pub mod AlarmFile
pub mod Log
pub mod Mqtt
pub mod Server
pub mod AlarmManager
pub mod Channel
pub mod Camera
pub mod Boot
pub mod Threads
pub mod Modbus
pub mod IniHandler
pub mod ThreadSafe
pub mod TimeStamp
pub mod DataSave
pub mod Routine
pub mod Earlier
pub mod Legacy
pub mod Tests
