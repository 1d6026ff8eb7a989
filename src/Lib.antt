-- ===== src/Lib.antt =====
-- A model of the core of the inline intrusion prevention system in src/: what happens to a packet
-- from its bytes to its verdict, and what is remembered of it.
--
-- The parts and how they interact. `PacketCapture::start` opens the queue of the kernel, has the
-- firewall guard install the rules that fill it, runs the loop of the packet source and takes both
-- down. The loop hands each packet to `PacketCapture::on_packet` and calls `on_tick` about once a
-- second, all on one thread. The parser reads the IP and transport headers; an inbound packet passes
-- the whitelist, then the block list, then the flow manager, whose statistics of the source the rule
-- engine judges; a hit blocks the source. Flows that end go as feature vectors to a consumer, whose
-- decisions come back in a later tick and block sources too. The consumer is the client of the
-- inference process: `consume` and `drain_decisions` are called from the packet thread, and a worker
-- thread sends the flows one at a time and reads the responses. The supervisor starts that process,
-- reads its output, and restarts it after a failure; the controller sets the client online and
-- offline by the supervisor's calls, posts the client's failures to the supervisor, shows both in
-- the tray, and ends all of them: it stops the capture and the client, joins the client's worker,
-- stops the supervisor, joins the capture thread and then sets the exit code, while the other
-- threads run on.
--
-- Files and the code they model:
--   Common/Clock, Common/FiveTuple        src/common/clock.h, src/common/five_tuple.h
--   Flow/Double, Flow/Stats, Flow/Types   src/flow/flow.h
--   Flow/Touch, Flow/Manager              src/flow/flow_manager.h, src/flow/flow_manager.cpp
--   Response/BlockList                    src/response/block_list.h, src/response/block_list.cpp
--   Response/Whitelist                    src/response/whitelist.h, src/response/whitelist.cpp
--   Detect                                src/detect
--   Ai/Types, Ai/Features                 src/ai/flow_record.h, src/ai/ai_types.h,
--                                         src/ai/flow_features.cpp
--   Ai/Client                             src/ai/async_ai_client.h, src/ai/async_ai_client.cpp
--   Ai/Protocol                           src/ai/ai_protocol.h, src/ai/ai_protocol.cpp
--   Capture/Parser                        src/capture/packet_parser.h, src/capture/packet_parser.cpp
--   Capture/Pipeline                      src/capture/packet_capture.h, src/capture/packet_capture.cpp
--   Capture/Source                        src/capture/packet_source.h, src/capture/packet_source.cpp
--   Capture/Firewall                      src/capture/firewall_queue_guard.h,
--                                         src/capture/firewall_queue_guard.cpp
--   Capture/Start                         src/capture/packet_capture.cpp, `PacketCapture::start`
--   Config                                src/config/config.h, src/config/config.cpp
--   Json                                  the calls of nlohmann::json, as an interface
--   App/Supervisor, App/Paths             src/app/ai_process_supervisor.h,
--                                         src/app/ai_process_supervisor.cpp
--   App/Controller                        src/app/application_controller.h,
--                                         src/app/application_controller.cpp
--   Ui/Tray                               src/ui/tray_controller.h, src/ui/tray_controller.cpp
-- Below each of them the files named for what they prove hold the lemmas. The functions keep the
-- names of the source; a method takes its object first and returns the new object, with its
-- result. Prelude holds the shared types, the conditional and the tests on numbers, and the
-- library's part on lists, association lists (for `std::unordered_map`) and sets (for
-- `std::unordered_set`). The Tests files run the code on concrete inputs.
--
-- Numbers. Addresses, ports and counters are natural numbers; an increment keeps its wrap-around
-- at 2^32 or 2^64. Time points are nanoseconds of a steady clock and unbounded. `double` is an
-- interface of operations: `LawfulOrder` says that its `<` orders the values, as it does where
-- none is NaN.
--
-- Bounds and fuel. The clean-up of the block list runs the 16384 rounds of the source, and the
-- sweep of the flow manager a tenth of the buckets or 64, as the source does. Which bucket a key
-- falls into is the standard library's and is a parameter. The loop over the lines of the
-- supervisor's buffer has the buffer's length as fuel, since each line is one byte or more with its
-- line feed. The loop that removes the jumps to the chain has fuel, and more than there are jumps
-- is enough, as the theorems on the guard show; so has the walk from a path to the root, for which
-- more than the steps to the root is enough. The receiving loop runs on a list of turns.
--
-- Outside code. iptables is a parameter that answers each run; `Documented` says that it changes and
-- answers as its documentation has it, or ends with an error and changes nothing. The JSON library,
-- libnetfilter_queue, Qt's process and timers, and the sockets are parameters or inputs.
--
-- Not modelled: the log and the texts for people; the snapshots and the report of the counters;
-- the text of a request to the inference process; `main`; the programs in ml.
pub mod Prelude
pub mod Common
pub mod Flow
pub mod Response
pub mod Detect
pub mod Ai
pub mod Capture
pub mod App
pub mod Config
pub mod Json
pub mod Ui
