-- ===== src/Lib.antt =====
-- Verification of the MSM8660 device library: the parts of the GPS interface that keep state, the
-- sensors' event buffer, the lights and the power profiles.
--
-- The GPS interface runs an engine thread that takes messages from a queue (gps/utils/msg_q.c), which
-- keeps them in a linked list (gps/utils/linked_list.c). The engine owns a state machine for each data
-- connection that assisted GPS needs (gps/libloc_api_50001/loc_eng_agps.{h,cpp}), whose subscribers
-- stand in a linked list too, and the session of the network-initiated request in progress
-- (gps/libloc_api_50001/loc_eng_ni.cpp), whose thread waits for the user's response.
--
-- - LinkedList: linked_list.{h,c}. LinkedList/Store.antt is the heap: elements and lists by address,
--   where an access to an address without one is a fault, and a `world` that callbacks act on.
--   LinkedList/Code.antt has the functions under their names; the address that an allocation gives is
--   an argument, null where it fails. The deallocators, `equal` and `data_0` are parameters. Loops run
--   on fuel, and fuel above the list's length is enough. LinkedList/Abstract.antt is the same on a
--   sequence of objects, which is the view of the two clients below.
-- - MsgQ: msg_q.{h,c}, each function by its critical section. MsgQ/Threads.antt puts senders,
--   receivers, flushes and unblocking in any order; `wake` is what POSIX says of
--   `pthread_cond_signal` and `pthread_cond_broadcast`, spurious wake-ups included.
-- - Agps: the three classes of subscriber (Agps/Subscriber.antt), the notifications that are passed to
--   the list's search as callbacks (Agps/Notify.antt), the machine's fields and requests
--   (Agps/Machine.antt) and the four states' `onRsrcEvent` (Agps/States.antt). Agps/Trace.antt runs
--   the public methods. Objects have addresses, since subscribers are changed through pointers into
--   the list and deleted. Whether the allocation in `linked_list_add` succeeds and the bytes of fresh
--   memory are inputs. Agps/Types.antt has the data.
-- - NiSession: the handlers of loc_eng_ni.cpp and the three steps of its threads, in any order. Each
--   handler is one step there, which leaves out threads that come between the restart handler's `free`,
--   its reset of the pointer and its critical section; NiSession/Restart.antt has these steps. The
--   counter `reqID` wraps at 32 bits.
-- - Engine: gps/libloc_api_50001/loc_eng.{h,cpp}. Engine/Types.antt has the state (`Engine` is
--   `loc_eng_data_s_type` with the two queues and the calls made), the messages of loc_eng_msg.h and
--   `World`, which is what the adapter, the resolver and `snprintf` answer. Engine/Handler.antt is the
--   switch of `loc_eng_deferred_action_thread` (`handle`) and one round of its loop (`round`);
--   Engine/Session.antt, Engine/Server.antt, Engine/Connections.antt and Engine/Reports.antt are the
--   functions it calls, and Engine/Api.antt those of the framework. `run` takes any calls, messages of
--   the adapter, rounds of the thread and steps of the NI threads in any order. The three AGPS machines
--   are those of Agps, and the NI session is that of NiSession. The 30 attempts of `loc_eng_init` are
--   the loop's bound.
-- - Nmea: gps/libloc_api_50001/loc_eng_nmea.cpp. Nmea/Position.antt and Nmea/Satellites.antt make the
--   sentences, Nmea/Print.antt prints into the buffer, puts the checksum and sends; when the checksum
--   is written behind the buffer's end, this is noted and nothing further is modelled. `Floats` is the
--   arithmetic of floating-point numbers and what `snprintf` prints of numbers. The 32 rounds of the
--   loop over the mask of satellites are enough for its 32 bits.
-- - Adapter: gps/libloc_api_50001/LocApiAdapter.cpp, addresses (Adapter.antt) and the messages made of
--   the modem's indications (Adapter/Senders.antt).
-- - ConfReader: gps/utils/loc_cfg.cpp. ConfReader/Trim.antt has `trim_space` on memory, on fuel, for
--   which more than the length of the string is enough, and ConfReader/Entry.antt the reading of a file
--   into a table. `Numbers` is what the C library reads from texts, and `OwnVariables` the memory of the
--   module's own two variables of a byte, into which an `int` is stored.
-- - Power: power/power.{h,c}, the tables in Power/Profiles.antt. Whether a file takes a write is an
--   input.
-- - ThreadHelper: gps/libloc_api_50001/loc_eng_dmn_conn_thread_helper.c, the thread of a daemon
--   connection and its launcher in any order.
-- - SensorReader: libsensors/InputEventReader.cpp, the circular buffer of input events.
-- - Lights: liblights/lights.c. How each write ends, what `access` finds and what the settings file
--   holds are inputs. Lights/Writes.antt runs any opening and setting calls.
-- - Common: Boolean tests, helpers on lists, and texts.
--
-- Not modelled: the thread and the lock of `LocEngContext`, the defaults of gps.conf and the resolver
-- of host names in loc_eng.cpp; the glue of loc.cpp and gps.c; the daemon connection but its thread
-- helper, which is input and output through pipes; logging; the other hardware modules (the sensors
-- but their event buffer, NFC, camera), which pass on to devices and vendor libraries; the freeing of
-- memory in destructors and in `msg_q_destroy`; memory order below a mutex; the clock.
pub mod Common
pub mod Agps
pub mod Adapter
pub mod ConfReader
pub mod Engine
pub mod Nmea
pub mod Power
pub mod Lights
pub mod LinkedList
pub mod MsgQ
pub mod NiSession
pub mod SensorReader
pub mod ThreadHelper
