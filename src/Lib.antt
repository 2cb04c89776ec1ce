-- ===== src/Lib.antt =====
-- cwsd is a daemon that keys a transmitter in Morse code for remote clients. This library models its
-- own logic and proves what makes it correct.
--
-- The parts, and the files here that model them:
--   Shared: Boolean tests, lists over the native numbers, machine words.
--   Buffer: src/circular_buffer.h. `circular_buffer` is a record of its members and `put`, `get`,
--     `peek`, `reset`, `empty`, `size` are functions on it; Buffer/Queue is the queue that it
--     promises to be, Buffer/Inv its invariant, Buffer/Refine and Buffer/Session the refinement,
--     Buffer/Stream `buffered_stream`.
--   RemoteKey/Protocol: src/remote_key_protocol.h, `encode` and `decode`.
--   RemoteKey/Receive: `receive_worker` of src/remote_key_server.cpp. The members that the two
--     threads share are the record `Link`; a turn of the loop is a function of the datagram and of the
--     time. What runs of both threads do to the link is a list of events (Receive/Events).
--   RemoteKey/Replay: `replay_worker` of the same file. The serial device and the thread's locals are
--     the record `Keying`; a turn is a function of what it reads: the time, whether a device can be
--     opened, and what the other thread has left in the link, which may change between two reads.
--     Replay/Lines is about the serial lines over any turns, Replay/Watchdog about how long the key
--     line stays on.
--   CwDaemon: `cw_daemon::to_winkeyer` and `is_tuning_command` of src/cw_daemon.cpp; CwDaemon/Sent
--     follows a text through the keyer.
--   CwDaemon/Server: `client_worker` of src/cwdaemon_server.cpp and `udp_server::receive` of
--     src/udp_server.cpp, which feed the keyer.
--   CwDaemon/KeyInterface: `key_interface` of src/cwdaemon_server.cpp, which moves the DTR line, and
--     the constructor of the server, which starts the keyer; KeyInterface/Follows holds the line
--     against the keyer's state.
--   StringUtil: src/string_util.h.
--   Strings: the functions of the C++ library on text that these use (`std::stoi`, `std::toupper`,
--     `std::to_string`).
--   Keyer: src/keyer. Machine has the data (`keyer_internal_state` and the members of the states)
--     and the lengths of time, States the states with `switch_to` and `update` (States/Keeps and
--     States/KeyLine: what they do to the key), Memory recording and the memories, Commands
--     `winkeyer_data` and `init`, Winkeyer the command table, CharPatterns the character table,
--     Morse the timings. Of the profiles, one is modelled. Sending has runs of `update` and
--     `winkeyer_data` with the Morse code that a stream of bytes stands for: Sending/Code its lemmas,
--     Updates, Letters and Next what an update does to what is to be sent, Front what it takes off
--     the buffer, Ticks `update` as a whole, Feeds `winkeyer_data`, Order runs of both, Progress and
--     Drains how far the keyer is from the end, Sent what has been sent then.
--   Rigctld: src/rigctld_server.cpp. Hamlib is what it uses of the hamlib library: constants and
--     functions of values are the record `Hamlib`, the rig is a function from the calls made so far to
--     its answers. Names has the names of modes and VFOs, Dump `dump_state`, Interpret
--     `interpret_command`, Client the buffers of a client with `read_from_client` and
--     `write_from_client`, Clients the map of the clients, ByKey `read_from_client` on the map, with
--     replies by descriptor, where Client has the record at hand, Poll the descriptors of `poll`,
--     Sweep the loop over them, Work the loop of the worker.
--   AudioStream: src/audio_stream_server.cpp, `poll_clients`, `broadcast` and `work`.
--   Daemon: main.cpp: `read_config` over a document of the YAML library, with the servers that
--     src/cwsd.cpp starts (Config, Settings), the levels that are logged (Logging), the rotation of
--     logs (Rotation).
--
-- The parts meet where the code joins them: the cwdaemon server feeds the bytes of `to_winkeyer` to
-- `winkeyer_data`, which stores them in a circular buffer that the keyer's states empty; the keyer's
-- calls of its hardware move the line of `key_interface`; the receiver and the replay of the remote
-- key server share the link.
--
-- Bounds: every loop but one is structural recursion, on the list that it goes through, on the bytes
-- that are left or on the count that the code has; `update_loop` counts down from the code's own cap of
-- 16. The loop over the lines of a client's read buffer runs on fuel, one more than the buffer's length:
-- a turn takes a byte of it at least, so that is enough. `rounds_left` bounds the calls of `update`
-- that the keyer needs: 25 for a byte, since a character has seven elements at most. Numbers are
-- printed with at most the 20 digits, or 16 to the base 16, that 64 bits take. Machine words keep
-- their wrap-around; where a theorem needs clocks far from their end, it says so.
--
-- Two things are coarser than the code. A round of the keyer's `update` has one answer of the clock
-- and one of each paddle, where the code asks again in the update, in leaving a state and in entering
-- the next. And `init` enters idle without leaving a state, as `switch_to` does when it is called
-- once, at the start, before there is a current state.
--
-- Not modelled: sockets, threads and locks (a turn takes what it reads as arguments, and calls from two
-- threads are steps one after the other, as the keyer's mutex makes them), the writing of logs, float
-- arithmetic (a parameter, Keyer/Floats), the keyer's audio, the loop of `keyer_worker`, which only
-- calls `update` of the keyer and of the interface, the listener of src/rigctld_server.cpp, the
-- opening of sockets and of the capture device, what ALSA and Opus compute, the command line, the
-- forks and the signals of main.cpp, and the libraries under src/libs. In the servers for datagrams, a
-- send or receive error does no more than skip a turn.
pub mod Shared
pub mod Buffer
pub mod RemoteKey
pub mod StringUtil
pub mod Strings
pub mod CwDaemon
pub mod Rigctld
pub mod AudioStream
pub mod Daemon
pub mod Keyer
