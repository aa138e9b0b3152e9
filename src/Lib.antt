-- ===== src/Lib.antt =====
-- A verification library for the IoT gateway of charging stations.
--
-- A station talks to the gateway over TCP in DNY frames: the header "DNY", a length, the station's
-- physical ID, a message ID, a command byte, a payload, and a checksum that adds up the bytes in
-- front of it. Bytes from the socket are cut into frames, frames are parsed into messages, and the
-- payload of a message is read by its command. Above this, the gateway keeps for each device and
-- port a charging state machine and an order, which the handlers of the commands drive. Sessions
-- lead from a device to its connection, and a queue takes the commands to the devices.
--
-- Wire models the frames:
--   Wire/Frame       internal/domain/dny_protocol/frame.go (Message) and the constants
--   Wire/Checksum    CalculatePacketChecksumInternal of pkg/protocol/dny_protocol_parser.go
--   Wire/Builder     BuildDNYPacket and ValidatePacket of pkg/protocol/unified_dny_builder.go,
--                    buildDNYPacket of frame.go, and BuildDNYResponsePacketUnified and
--                    ValidateDNYFrame of dny_protocol_parser.go
--   Wire/Parser      ParseDNYProtocolData of dny_protocol_parser.go
--   Wire/Splitter    SplitPacketsFromBuffer and ParseMultiplePackets of dny_protocol_parser.go
--   Wire/Packet      Pack and Unpack of pkg/protocol/dny_packet.go
--   Wire/Results     ParseDNYData and ParseMultipleDNYFrames of pkg/protocol/parser.go
-- and states about them: RoundTrip, Accept (with Shape and Steps), Corrupt, Framing, Splitting,
-- Progress, Gzip and Single.
--
-- Payload models the payloads, internal/domain/dny_protocol/message_types.go: Heartbeats (power,
-- main and device heartbeats), Control (charge control, parameters, BuildChargeControlPacket of
-- frame.go) and Card (swipe card, settlement, registration). A reader takes the receiver as it
-- stands and the time; its error carries the receiver as it was left. HeartbeatLaws, PortLaws and
-- GunLaws are about the heartbeats, ControlLaws and CardLaws about the others; Reads has the lemmas
-- on reads at an offset.
--
-- Charging models pkg/gateway/charging_state_machine.go (Machine) and
-- pkg/gateway/state_machine_manager.go (Machines). A call is a function from the machine to the
-- machine that the mutex releases, or an error. The event that a transition sends from its own
-- goroutine is kept in `in_flight` until a step of its own sends it, so that every order of the
-- goroutines is a run. Named, History, Runs, Control, Accepts and Offline are about them.
--
-- Orders models pkg/gateway/order_manager.go (Key, Manager). Invariant, Effects and Expiry are
-- about it. The table of orders and that of machines use the same text key.
--
-- Commands models pkg/network/command_manager.go: Manager (registration, confirmation, deletion)
-- and Retry (expiry and retries). Each stretch of code under the lock is a call of its own, so that
-- sends and other calls may come between. Bounds, Runs and Expiry are about it.
--
-- Sessions models pkg/core/tcp_manager.go: State (connections, device groups by SIM card, the index
-- from a device to its card), Index (look-ups, validation and repair), Registry (connections),
-- Registration (devices), Activity (heartbeats, status, details) and Watch (the heartbeat watcher,
-- counters, lists, health check); and PhysicalId, the texts of pkg/utils/physical_id_helper.go. A
-- call is a function from the manager to the manager and what the call answers, so a call that
-- fails keeps what it had changed. What Go changes through a pointer is changed in its table
-- (`adjust`). Invariant, Members, Kept, KeptDevices, KeptActivity and KeptWatch lead to Runs, Stored
-- leads to Admission, and Evict, Heartbeat and PhysicalIdLaws stand by themselves.
--
-- Queue models pkg/network/command_queue.go (State). A send or a receipt and the counter that
-- follows it are steps of their own, as is every `select` of a worker and every `close` of `Stop`,
-- and where Go's `select` may pick, an argument says which case it picks. Runs has the steps; Channels and Counters are about them.
--
-- Heartbeat models pkg/gateway/adaptive_heartbeat_filter.go (Filter); Runs, Followed and Spacing are
-- about it. Ports models pkg/core/port_manager.go (Manager); Tables, Mapping and Agree are about it.
--
-- Conventions. A byte string is a list of numbers; what is below 256 by its type in Go is so by a
-- hypothesis (`IsByte`) where a statement needs it. Sums that wrap are written with `% 2 ^ w`
-- (`u8`, `u16`, `u32` of Shared/Words). A panic is a value of the result type (Shared/Outcome), and
-- a slice past the length of its array is one even where the capacity would allow it, but for the
-- splitter, which is given the spare capacity. Times are numbers. A Go map is an association list
-- whose order stands for the iteration order, and each stretch that a goroutine runs under a mutex is
-- one step. Ports are not negative. Log output is left out, except where it can panic.
--
-- Fuel. The loop of SplitPacketsFromBuffer runs on one unit of fuel more than the buffer has bytes;
-- each round shortens what is ahead. That of ParseMultipleDNYFrames has as much. The digits of a
-- number are printed on its value as fuel. Go's trimming of white space runs on the length of the text, of which each round drops a byte.
--
-- Parameters. The spare capacity of a buffer, and of one that was decoded, are arguments of the
-- splitter, and the set of online devices is one of the clean-up. The priority of a command, the
-- state of a connection, the device registry and the result of a send are arguments of the command
-- manager's calls, and the outcome of a write is one of the queue's worker.
--
-- Not modelled: the writers of the swipe card and settlement payloads, which use calendar times;
-- the senders and monitors of pkg/network, the rest of pkg/gateway and the decoder's interceptor; and
-- configuration, logging, HTTP, Redis, notification and the handlers of the connection framework,
-- which are input and output. Of the session manager, the properties of sessions and devices and
-- the fields that are never written are left out, one reading of the clock serves a whole call, and
-- the calls do not overlap, save that others may come between the check of the index and the beat in
-- UpdateHeartbeat; of the port manager, the callbacks and the texts of a port.
pub mod Shared
pub mod Wire
pub mod Payload
pub mod Sessions
pub mod Charging
pub mod Orders
pub mod Commands
pub mod Queue
pub mod Heartbeat
pub mod Ports
pub mod Tests
