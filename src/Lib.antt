-- ===== src/Lib.antt =====
-- A verification library of the client of scrcpy, in app/src: the control channel between the
-- computer and the device, simulated input devices, the demuxer and buffers of the video and audio
-- pipeline, the recorder, the sizes of the window, the devices and the tunnel of adb, and the reverse
-- display.
--
-- The parts. Threads of the client push control messages (app/src/control_msg.h) to the
-- controller (app/src/controller.c), which keeps them in a ring buffer (app/src/util/vecdeque.h);
-- the thread of the controller takes them out, serializes them (app/src/control_msg.c) with the
-- helpers of app/src/util/binary.h and app/src/util/str.c, and sends them. The receiver
-- (app/src/receiver.c) reads the bytes that the device sends, cuts them into device messages
-- (app/src/device_msg.c), and hands these on.
--
-- * Util/Binary models app/src/util/binary.h: `write16be` is `sc_write16be`, and so on; a pointer
--   is a buffer, as a list of bytes, and an index.
--
-- * Util/Str models `sc_str_utf8_truncation_index`, `sc_str_list_contains` and
--   `sc_str_remove_trailing_cr` of app/src/util/str.c. A loop that leaves the text below index 0, undefined in C, is `none`.
--
-- * Util/VecDeque models app/src/util/vecdeque.h: a macro on `*pv` is a function that returns the
--   new structure; a failed assertion is `none`; whether an allocation succeeds is an argument.
--
-- * ControlMsg models app/src/control_msg.c: `serialize` is `sc_control_msg_serialize`.
--   ControlMsg/Encode says what the bytes of each message are, ControlMsg/Reader is the device's
--   reader server/src/main/java/com/genymobile/scrcpy/control/ControlMessageReader.java. C floats
--   are a parameter, `FloatOps`, with the laws of IEEE comparison that the bounds of the words
--   need. A conversion to a fixed-point word whose assertion fails is `none`.
--
-- * Controller models app/src/controller.c: each function is one critical section of the mutex,
--   so that a history of the program is a list of events (Controller/Fifo), and the condition
--   variable is a flag in the result that says whether it is signalled.
--
-- * DeviceMsg models `sc_device_msg_deserialize`, with its three results: not complete, invalid,
--   or a message and its size.
--
-- * Receiver models `process_msgs` and `run_receiver`; the results of `net_recv` are a list of
--   chunks. `process_msg` only gets the messages: what it does with them is not modelled, and its
--   assertion on `acksync` is taken to hold. Receiver/Stream says what a stream of bytes says, as a
--   relation.
--
-- * Hid/Gamepad, Hid/Keyboard and Hid/Mouse model app/src/hid/hid_gamepad.c, hid_keyboard.c and
--   hid_mouse.c: the arrays of slots and of keys are lists, and an input event returns the id and
--   the report. Hid/Descriptor reads a report descriptor for the size of its report. The constants
--   of SDL and the floats of the scrolls are parameters.
--
-- * PacketMerger and FrameBuffer model app/src/packet_merger.c and app/src/frame_buffer.c, which
--   stand between the demuxer, the decoder and the screen.
--
-- * Demuxer models app/src/demuxer.c: `run_demuxer` is the whole thread, cut into `run_codec`,
--   `run_video`, `run_open` and the loop `demux`; the bytes that the socket still gives are a list,
--   and FFmpeg is a parameter. Demuxer/Frames writes the format of a stream. PacketSource models
--   app/src/trait/packet_source.c: a sink is what it answers, and its calls are recorded; a source
--   without a sink fails its assertion, and the run ends without a status.
--   PacketSource/Protocol has the order in which a sink may be called.
--
-- * Adb/Tunnel models app/src/adb/adb_tunnel.c, with the answers of adb and of the network as a
--   parameter. Adb/Devices models `sc_adb_parse_devices` of app/src/adb/adb_parser.c, and Adb/Select
--   app/src/adb/adb_device.c and `sc_adb_select_device` of app/src/adb/adb.c behind the listing: a
--   device that is marked or chosen is a new record in the list.
--
-- * Util/AudioBuf models app/src/util/audiobuf.c: Util/AudioBuf/Threads has the reader and the
--   writer as steps that alternate in any way, with the atomic operations in a single order.
--
-- * Recorder models app/src/recorder.c: Recorder/Header is `sc_recorder_process_header` and the
--   opening of the sinks, Recorder/Round one turn of the loop of `sc_recorder_process_packets`,
--   Recorder/History the turns among the pushes of the sinks and the stops. FFmpeg is a
--   parameter, `Muxer`.
--
-- * Screen/Orientation models `sc_orientation_apply` of app/src/options.c, Screen/Size the sizes of
--   app/src/screen.c, such as `get_optimal_size`; the bounds of the display are an argument.
--
-- * Reverse models the part of the client that streams the desktop of a PC to the device.
--   Reverse/Watchdog is app/src/reverse_watchdog.h. Of app/src/reverse_display.c, Reverse/H264
--   has the normalization of the packets of the encoder (`reverse_normalize_h264`,
--   `reverse_normalize_h264_config`), Reverse/Geometry `reverse_map_position`, and Reverse/Touch
--   with Reverse/Touch/Inject the contacts and the injection of touches (`reverse_find_touch` to
--   `reverse_inject_touch`): the contacts in use are a list, the calls of Windows are recorded in
--   the state, and what Windows answers to them is a parameter.
--
-- * Examples holds concrete inputs, and Prelude the shared names and lemmas: lists and words over
--   the native numbers.
--
-- Bounds and fuel. The loop of `sc_str_list_contains` gets one unit of fuel more than the list
-- has characters, and each round but the last drops one; `process_msgs` gets one more than there
-- are bytes, and each message consumes one at least; the loops over the NAL units of a packet
-- get one more than it has bytes, and each unit takes one at least; the demuxer gets one more
-- than there are bytes, and each round takes a header of 12; the loops over the ports get one
-- for each port; the parser of a device gets one for each character, and each round goes back by
-- one at least. Sizes of `size_t` wrap at 2 ^ 64, and the maximal capacity of a ring buffer is
-- below 2 ^ 63. The cursors of an audio buffer wrap at 2 ^ 32, and its capacity is below 2 ^ 31.
-- The loop of the recorder has no fuel: each turn is an event. `++last_pts` of the recorder wraps at
-- 2 ^ 63, and the least int64_t is AV_NOPTS_VALUE; other sums of timestamps do not overflow.
--
-- Not modelled: threads, sockets and memory of the operating system, which are arguments; the
-- logging; the file of a recording; the capture and the encoders of the reverse display; the
-- command lines of adb and the parser of `ip route`; the start of the server; the command line;
-- the translation of the events of SDL; the acknowledgement of clipboards, the clock, the vector
-- and the map; the decoder, the players and the regulators; the rendering of the screen; the USB
-- and the Android side but for its reader.
pub mod Prelude
pub mod Util
pub mod ControlMsg
pub mod Controller
pub mod DeviceMsg
pub mod Receiver
pub mod Hid
pub mod PacketMerger
pub mod PacketSource
pub mod Demuxer
pub mod FrameBuffer
pub mod Reverse
pub mod Recorder
pub mod Screen
pub mod Adb
pub mod Examples
