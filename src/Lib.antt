-- ===== src/Lib.antt =====
-- The verification of openrom: a library of the Runes of Magic protocol, a proxy between the game's
-- client and server, and tools that read captured traffic.
--
-- A client and a server exchange packets over TCP. A connection (lib/romconnection.cc) collects what
-- the socket delivers in a buffer (lib/buffer.cc), cuts it into packets (lib/romstructs.h), checks
-- and decrypts them, and calls back its owner; the other way it numbers, checksums and encrypts. The
-- data of some packets is compressed (lib/rompack.cc). The proxy joins two such connections
-- (romproxy/romproxiedconnection.cc): what one receives, the other sends, and both sides go to a log
-- (lib/rompacketlogger.cc), which romdump reads and decodes by a protocol definition
-- (lib/protocoldecode.cc).
--
-- - Base: names of the libraries, passed on; lists over the native numbers, Boolean tests, and the
--   exclusive or of bytes.
-- - Buffer: class Buffer. `add_data`, `flush_data`, `peek_data` are AddData, FlushData, PeekData on a
--   record of the array and the count.
-- - Packet: struct ROM::Packet as a record of its fields, its memory (`to_bytes`, `of_memory`), and
--   the loops of OnEvent and ChecksumAndSend that encrypt, decrypt and sum bytes.
-- - Connection: class ROMConnection. Socket and callbacks are the record `Host` over any state;
--   `on_event`, `send_packet`, `send_key`, `copy_key` are OnEvent, SendPacket, SendKey, CopyKey, and
--   `step` is one pass of OnEvent's loop.
--   Connection/Stream is what a connection promises of the bytes that it receives: `stream` cuts them
--   into packets and answers each, without a buffer.
-- - Rompack: class ROMPack. `step` goes from one label of Unpack to the next, `unpack` and `pack` are
--   Unpack and Pack.
-- - PacketLog: class ROMPacketLogger, which writes a log of packets, and class ROMLogParser with the
--   loop of romdump/romdump.cc that reads one.
-- - Decode: lib/protocoldecode.cc. `fill`, `fill_packet` and `find_packet` are Struct::Fill,
--   Packet::Fill and ProtocolDefinition::Process on the types and actions of
--   lib/protocoldefinition.h.
-- - Definition: how lib/protocoldefinition.cc builds a protocol definition from an XML tree, which is
--   plain data. Definition/Fields are the built-in types, Definition/Structs structs and packets, and
--   Definition/Document the rest of a file; `load` is Load.
-- - Generator: lib/protocolcodegenerator.cc, which prints C++ classes for a protocol definition. What is
--   printed is the list of the calls of fprintf, with their formats and arguments. Generator/Classes is
--   the header, Generator/Functions the member functions, Generator/Recognition the parser.
-- - Packing: the transformation ROMPacking of romdump/romdump.cc.
-- - Flow: class Flow, the order of connections (romdump/types.h, romdump/connection.h), and AnalyzeFlow
--   of romdump/romdump.cc.
-- - Capture: the loop of romdump/romdump.cc that gives what is read to the flow of its connection, and
--   the walk over the flows at the end. A call of AnalyzePacket may end the program: `comes_back` of Flow,
--   which Traffic/Returns compares with AnalyzePacket. `dump` is the loop, `dump_log` the whole of a log file.
-- - TcpFlow: romdump/tcpflowparser.cc, which reads the text that tcpflow prints. TcpFlow/Dump is that text.
-- - SysNames: romdump/csvsysparser.cc, with SysName and StatName of romdump/romdump.cc.
-- - Display: what lib/protocoldisplay.cc shows of a number.
-- - ObjectIds: the annotations of romdump/romdump.cc that keep the names of objects, and the objects of
--   characters. A struct is the list of its fields.
-- - Traffic: AnalyzePacket and PacketMatchesList of romdump/romdump.cc. `examine` are its checks.
-- - Proxied: class ROMProxiedConnection. The callbacks of one connection change the other connection
--   and a `Network`.
-- - Text: what the proxies use of the C library on strings.
-- - Address: class Address and Server::Listen, over the system calls as the record `Os`.
-- - Proxies: the proxies of romproxy/romproxy.cc and romproxy/proxy.cc, and in Proxies/Redirect the
--   packets that romproxy/gameproxy.cc and romproxy/loginproxy.cc rewrite. Proxies/Events is
--   ProcessFdSet with the clients and servers of lib/client.cc and lib/server.cc.
--
-- Numbers are natural numbers, with the wrap of uint8_t and uint32_t written as a remainder. A failed
-- assertion and a read out of range are values of their own, never a default. The loop of OnEvent runs
-- on as many passes as the buffer holds bytes, and one; the labels of Unpack on three for each byte of
-- the source, and three; the padding loop of Pack on the length of the source: each is shown to be
-- enough, by the theorems that name no stuck outcome. The loop that reads a log runs on the length of
-- the file, and one; AnalyzeFlow's on the length of the data, and one; the doubling of a flow's buffer
-- on 33. ParsePacket runs on the length of the file, and one, and its loop over a line on that of the
-- line, and one; CSVSysParser's loop runs on the length of the file; the digits of a printed number on
-- the number, and one. `stream` runs on the number of the bytes, and one.
--
-- Sockets, files and the log of the proxy are operations of `Host`, `Network`, `Os`, `Sockets` and of a
-- parameter `write`; the events of a connection in Proxies/Events are the record `Handlers`. What theorems assume of them is a hypothesis with a name: that `write` appends all
-- of its bytes, that addresses fit in a struct sockaddr (`HasSmall`), and that the
-- callback for a new key looks at the key alone (`ReadsKey`), which is shown of the proxy's. Debug output
-- is left out. Not modelled: the printing of structs and values in lib/protocoldisplay.cc, the Python
-- bindings of the code generator, the printing of packets in romdump, command lines, and the loop of the
-- proxy over its sockets.
pub mod Address
pub mod Base
pub mod Buffer
pub mod Capture
pub mod Connection
pub mod Decode
pub mod Definition
pub mod Display
pub mod Flow
pub mod Generator
pub mod ObjectIds
pub mod Packet
pub mod PacketLog
pub mod Packing
pub mod Proxied
pub mod Proxies
pub mod Rompack
pub mod SysNames
pub mod TcpFlow
pub mod Text
pub mod Traffic
