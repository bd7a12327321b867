-- ===== src/Lib.antt =====
-- A model of the AFI920 radar SDK, the C++ library that receives a radar's data streams and sends it
-- vehicle input.
--
-- The program. A sensor sends SOME/IP datagrams with an E2E header and an ISO 23150 payload. For each
-- stream the SDK checks the SOME/IP envelope, reassembles the segments of a large message, checks and
-- strips the E2E header, hands the payload to the callback for wire payloads, tracks lost slots, and
-- decodes the payload for the typed callbacks.
--
-- Which file models which part:
--   Prelude        names, tests and lists that all files share, and `Outcome`, the result of code that
--                  reads a buffer: a value, an error return, or `fault`, a read out of range
--   Endian         src/util/endian_util.h: unpack_be16 ... pack_be32
--   Someip         src/protocol/someip.h and someip.cpp: someip_deserialize, someip_tp_deserialize
--   Reassembler    src/protocol/someip_tp.h and someip_tp.cpp: `feed` is Feed, `reset` Reset,
--                  `add_covered_range` AddCoveredRange, `is_fully_covered` IsFullyCovered
--   Interface      the functions of third_party/afi920_interface that the SDK calls, as a record with
--                  the laws their comments state
--   E2e            src/protocol/e2e.h and e2e.cpp: e2e_parse, e2e_validate, e2e_write_header
--   Payload        src/protocol/rdi_parser.cpp, shi_parser.cpp and spi_parser.cpp: Parse of each
--   Stream         src/afi_sdk.cpp: ValidateStreamMessage, ConsumeE2eHeader, DeliverWirePayload,
--                  TrackRdiLoss and the Process...Datagram handlers, over the members of AfiSdk::Impl
--                  that these use
--   Csii           src/protocol/csii_builder.cpp: csii_build_frame
--   Error          include/afi/afi_error.h: AfiErrorFromReturnCode, AfiReturnCodeName and
--                  AfiErrorStr
--   Sdk            src/afi_sdk.cpp: ResolveTransport, Init, Start, Stop and SendVehicleInput over the
--                  sockets they open, Sessions their calls in any order, and ConfigApi
--                  ReconnectConfigApi over the connection of TcpClient. A receiver thread is there
--                  or not; `stop` is told which of them connect again before it joins them
--   Transport      src/transport/: Network holds the system calls as parameters; StreamClient is
--                  tcp_stream_client.cpp, TcpClient tcp_client.cpp, UdpReceiver and Senders
--                  udp_receiver.cpp and tcp_sender.cpp, and Sending the loops that write a buffer. The
--                  loop of a receiver thread of src/afi_sdk.cpp is `receive_loop`
--   Config         src/config_api/config_client.cpp: Json holds what is called of the JSON library,
--                  Exchange is Exchange and SendJsonRequest, Calls the methods, Mode GetMode, SetMode
--                  and EnterMode, Reads, Tables and Writes the answers and the requests, and
--                  Legacy all methods over a connection to a v1.0.x sensor
--   Discovery      src/discovery/discovery.cpp: `scan` is Scan, over the answers of `recvfrom`, and
--                  `parse_response` ParseResponse, which fills the AfiSensorInfo of Info
--
-- How the parts interact. A receiver thread takes a frame or a datagram from a StreamClient or a
-- UdpReceiver and hands it to its handler of Stream; SendVehicleInput gives the frame of Csii to a
-- sender; ConfigClient sends its requests over a TcpClient, which Config.Legacy puts together with it.
--
-- How the model stands to the code. A pointer with its length is a list of bytes, and a null pointer
-- the empty list. Unsigned integers are native numbers, with the wrap-around written out where the
-- code can wrap. Floats are their bit patterns. Log lines are left out. A callback is an event in
-- the result. A handler is a function of the settings, the state and the datagram; a stream's state
-- belongs to its receiver thread. A loop is structural recursion. The
-- loops that call `recv` or `send` recur on a bound of their rounds: the bytes still missing, since each
-- answer brings one at least, and in StreamClient, where a call that a signal interrupts is made
-- again, the argument `rounds`, which is enough from the frame limit plus 8 plus the interrupts on.
--
-- Not modelled: the operating system behind the socket calls, and socket options; the
-- interleaving of threads, but for Stop with a reconnect, and locks;
-- the socket of a discovery and its clock; the parse and print of JSON text; the facade of
-- AfiSdk; the Python package and the examples. The vendored headers and the vendored JSON library
-- enter as parameters.
pub mod Prelude
pub mod Endian
pub mod Someip
pub mod Reassembler
pub mod Interface
pub mod E2e
pub mod Payload
pub mod Stream
pub mod Csii
pub mod Error
pub mod Sdk
pub mod Transport
pub mod Config
pub mod Discovery
