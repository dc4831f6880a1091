-- ===== src/Lib.antt =====
-- A model of plc_service_rust, the service between MQTT clients and the master node of a power line
-- network, which it talks to over a serial line (or TCP) in the frame format of src/protocol.
--
-- How the parts interact: a service makes a request (Message), which becomes application data and a
-- frame (Protocol) and is sent by a thread of the agent (Uart.Agent), which remembers it. The reader
-- (Serial) cuts the bytes of the line into frames; the agent finds the request that a frame answers and
-- hands both to the handler of its function (Uart.Dispatch).
--
-- The parts that are modelled, and where:
-- - Base: lists over the native numbers, tests, outcomes (`Ok`, `Err`, panic) and facts about bits.
-- - Protocol.Fault: `Afn` and the errors (src/protocol/app_data/mod.rs, src/protocol/frame.rs).
-- - Protocol.InfoField: src/protocol/info_field.rs. Protocol.AppData: addresses, data flags and
--   application data of src/protocol/app_data/mod.rs. Protocol.UserData: src/protocol/user_data.rs.
-- - Protocol.Frame: src/protocol/frame.rs, with `Frame::parse` in Protocol.Frame.Cursor and what the
--   service asks of a frame in Protocol.Frame.Kind.
-- - Message: the requests and responses of src/protocol/app_data/, one module per file there, but that
--   init.rs and meter_ctrl.rs are with ctrl_cmd.rs. `x_to_app` is `AppData::from` of a request and
--   `x_of_app` is `try_from` of a response. Message.Entries has the lists of entries of one size,
--   Message.Wire the way from a request to the bytes of the line.
-- - Serial.Reader: `StreamReader` of src/serial_port.rs, over the results of the stream's `read`.
-- - Uart.Request: src/request_info.rs. Uart.Agent: src/uart_agent.rs, as what each of its three threads
--   and a timer do to the state `UartReqInfo` while they hold its lock. What the other threads do while
--   the serial thread waits is a list of events, in any order; `turn` is one round of its loop.
-- - Uart.Dispatch: the routing of responses in src/uart_handler.rs, to handlers that are only named; that
--   of reports is in Reports and that of timeouts in Timeouts.
-- - Message.RouteGet: src/protocol/app_data/route_get.rs, with the responses on the network and chips in
--   Network, on the running status in Status and on the modules of the nodes in ModuleIds.
-- - Service: of src/service. Service.Action is a service's state passing with outcomes, Service.Dict a
--   `HashMap` with text keys, Service.Response what src/service/parse_response.rs makes of a response and
--   of a request. Service.NodeConfig is src/service/node_config.rs: which application asked for which
--   nodes, with an `Arc` as an allocation whose reference count is how often it stands in the map of the
--   applications. Service.NodeManage is src/service/node_manage.rs: the requests to add and delete
--   nodes, in chunks of ten that the module confirms. Service.ConcurrentMeter is
--   src/service/concurrent_meter.rs: the readings of meters, with a queue for each address.
--   Service.FileUpgrade is src/service/file_upgrade.rs: the transfer of a file, and the thread that
--   watches an upgrade of the module.
-- - Examples: the theorems at concrete inputs, among them the frames of the repository's tests.
--
-- A service's operation runs under its lock, but a wait on a condition variable gives the lock up. What
-- the reader thread, the timers and the start-up do during each wait is a list of events, so that a state
-- has a list of such lists (frames that other services send meanwhile are not kept in it); a wait that none of its events ends is the error `waiting`. In
-- Service.ConcurrentMeter a panic is `none`.
--
-- A Rust function that can fail or panic returns an `Outcome`. The model has overflow checks on, as in
-- cargo's dev and test profiles: an overflow of `u8` arithmetic, an index or slice out of range and an
-- `unwrap` of a failure are the outcome `panic`. A byte is a natural number; where a theorem needs it to
-- be below 256, it says so. A vector or slice of bytes is a list. A loop has as fuel the number of
-- elements or bits that it can visit at most, which is exact: the search for a mark bit has eight
-- rounds (the ninth overflows the shift), the search for a start byte has the bytes of the buffer, and
-- `chunks` the elements of the list.
--
-- Not modelled: the display of values, logging, ports and sockets, channels, the replies to MQTT clients
-- and their JSON, and the crates chrono, timer, serde, hex, rusqlite and rumqttc (what is used of them is a
-- parameter); the parsing of the stored configuration in
-- src/service/node_config.rs; the polling of an upgrade of the nodes in src/service/file_upgrade.rs; the
-- other services of src/service and the MQTT side.
pub mod Base
pub mod Protocol
pub mod Message
pub mod Serial
pub mod Uart
pub mod Examples
pub mod Service
