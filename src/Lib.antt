-- ===== src/Lib.antt =====
-- The IEEE 1905.1 control messages of this repository, and the agent that exchanges them.
--
-- A CMDU is a header and a sequence of TLVs that ends with an END_OF_MESSAGE. The agent builds
-- CMDUs, `MessageSerializer::Pack` writes them, `MessageParser::Parse` reads what an interface
-- received, and the agent dispatches on the type. WSC messages travel in the value of a TLV.
--
-- Files and the code that they are about:
--   Prelude, Result, Bytes   shared numbers and lists; exceptions; buffers with a pointer
--   TlvTypes, CmduTypes, LldpTlvTypes
--                            the constants of include/ieee1905_1/tlv.h, cmdu.h and lldp.h
--   Tlv                      src/tlv.cpp: `make` is the constructors, then the accessors
--   Cmdu                     src/cmdu.cpp: `make`, `add_tlv` and `find_tlv`. Log is a view of the
--                            message as what was added and the END_OF_MESSAGE that closed it
--   Serializer               src/serializer.cpp: `pack`
--   Parser                   src/parser.cpp: `parse`, its loop `read_tlvs`, its body `read_tlv`. Frame
--                            is about what it accepts, Errors about what it refuses,
--                            Injective about what the bytes tell of the message, and
--                            Refinement about a message that travels between the calls
--   Lldp                     src/lldp.cpp: `make`, `add_tlv` and `get_packed_size`
--   Wsc                      src/wsc.cpp: `add_attribute`, `pack_attributes`, `parse_attributes`,
--                            `to_tlv`, `from_raw` and `get_attribute_value`. Contents and Refinement
--                            are about the message as a map that forgets its encoding, Normal about
--                            the encoding of a message that was read
--   World, Logger            src/logger.cpp, and the state that calls of the agent read and write
--   Interface                src/interface_manager.cpp
--   Agent                    src/agent.cpp: Names is `CmduTypeToString`, Dispatch is `HandleCmdu`,
--                            Process and Sends are the methods of these names, Discovery is the
--                            constructor and `SendTopologyDiscovery`, Loop is `Start`
--                            Handlers and Handling are about the dispatch, Naming about the names,
--                            Sending and Receiving about one send and one packet, Sent about the
--                            packets of several sends, Exchange about
--                            both together, Rounds, Arrivals and Reactions about the loop, Order
--                            about all calls of an agent in any sequence
--   Origins                  the messages, TLVs and WSC messages that the methods can make, from any
--                            words and bytes and in any combination
--   Network                  two agents and a link between them: what one hands to `SendPacket` comes
--                            out of the other's `ReceivePacket`, or is lost, and so does whatever
--                            comes from elsewhere. The modules below it are about the ids that the
--                            receiver logs
--   Controller               examples/simple_controller.cpp: `main`
--   Tests                    the cases of tests/tlv_test.cpp, and other concrete inputs
--
-- Bytes and 16-bit words are natural numbers. The casts of the source are written out as `% 256`
-- and `% 65536`, and the ranges that the C++ types guarantee are the predicates `IsValid`. A sum of
-- sizes in size_t is not reduced: Bounds of Serializer and of Wsc are about how large it can be.
-- A call returns `ok`, or `err` with the exception. Access past a buffer is the error
-- `out_of_bounds`, a loop that used up its rounds is `out_of_fuel`; both are no exceptions. The
-- loops of the parsers have one round for each byte of the buffer, which is enough since a round
-- takes three bytes of a CMDU and four of a WSC message at least.
-- std::map is the list of its entries in the order of their keys. `Start` never ends, so the
-- model has any given number of its rounds, each with its own call of ReceivePacket. That of the
-- repository receives nothing; the theorems on the loop hold for any that keeps `IsReceive`. The
-- link of Network is an assumption on the network: it keeps the order of the packets of one agent,
-- changes none but by padding it, and repeats none. What comes from elsewhere may be any bytes.
--
-- Not modelled: spdlog and std::cerr, whose calls are recorded as events; the failure of an
-- allocation; the socket code, which the source has commented out, so that the event `transmit` keeps
-- what `SendPacket` is given; threads, of
-- which the program has one; the exceptions of other types for which `main` has a handler.
pub mod Agent
pub mod Bytes
pub mod Cmdu
pub mod CmduTypes
pub mod Controller
pub mod Interface
pub mod Lldp
pub mod LldpTlvTypes
pub mod Logger
pub mod Network
pub mod Origins
pub mod Parser
pub mod Prelude
pub mod Result
pub mod Serializer
pub mod Tests
pub mod Tlv
pub mod TlvTypes
pub mod World
pub mod Wsc
