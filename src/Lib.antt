-- ===== src/Lib.antt =====
-- The Owl Platform common library: its network buffers, the messages between the world model and
-- its clients and solvers, between aggregators, sensors and solvers, its sockets, and the receiver that
-- cuts a socket's stream into messages.
--
-- The parts, and how they interact. A message function, as client::makeSnapshotRequest, builds a
-- byte buffer with the writing functions of the network buffer, which turn each value into network
-- order. ClientSocket::send hands the bytes to the system, in as many calls as it takes, and the stream
-- may be cut anywhere. The message receiver of the other side puts whole messages together again by the
-- length field at their front, and a decoder, as client::decodeSnapshotRequest, reads one with a
-- BuffReader.
--
-- Which file models which part:
--   Prelude: names of the libraries, Boolean tests, lists over the native numbers.
--   Netbuffer/Endian: src/netbuffer.cpp, littleEndian to fromNetworkEndian.
--   Netbuffer/Primitive: the types T of the templates, their sizes and their bytes in memory.
--   Netbuffer/Push: include/netbuffer.hpp and src/netbuffer.cpp, pushBackVal (push_back_val, and
--     push_back_val_at with an index), pushContainer, pushSizedContainer, pushBackUTF16,
--     pushBackSizedUTF16.
--   Netbuffer/Reader: BuffReader of the same two files, and the free function readPrimitive
--     (read_primitive_at).
--   Message/Draft, Message/Decode: src/world_model_protocol.cpp, the statements that the message
--     functions share: the variables buff and total_length; the header, its test, and the test of
--     outOfRange.
--   WorldModel/Types, WorldModel/Client, WorldModel/Solver: include/world_model_protocol.hpp and
--     src/world_model_protocol.cpp, one file for each group of messages of the namespaces client and
--     solver. makeX is make_x and decodeX is decode_x.
--   Netbuffer/Strings: the free functions readUTF16 and readSizedUTF16 of src/netbuffer.cpp
--     (read_utf16_at, read_sized_utf16_at).
--   Netbuffer/Containers: the free templates readPrimitiveContainer (read_primitive_container_at) and
--     readSizedContainer (read_sized_container_at) of include/netbuffer.hpp.
--   Netbuffer/Reader/Misses, Message/Decode/Cut, WorldModel/Client/Cut, WorldModel/Solver/Cut: messages
--     that end inside a field. Netbuffer/Reader/Short, WorldModel/Client/Data/Short and
--     WorldModel/Solver/Solution/Short: those that end inside the bytes of an attribute or a solution.
--   WorldModel/Handshake: makeHandshakeMsg of all four protocols, as make_client_handshake_msg.
--     WorldModel/KeepAlive is about makeKeepAlive, which stands in WorldModel/Client/Ticket and
--     WorldModel/Solver/Announce.
--   Message/Decode/Rejects, WorldModel/Client/Rejects, WorldModel/Solver/Rejects: messages that the
--     decoders turn away.
--   Receiver: src/message_receiver.cpp, messageAvailable and getNextMessage; Receiver/Rounds,
--     Framing, Starved, Conserved, Overrun and Edges are about its loop, whole streams, streams that end
--     early, calls in any order on any stream, reads past the end of the buffer, and the rest.
--   Uint128: uint128_t of include/sample_data.hpp and src/sample_data.cpp; Uint128/Print: how it is
--     printed; Uint128/Order and Uint128/Laws are about it.
--   Sample: SampleData, and the statements that write and read one, which the aggregator's and the
--     sensor's functions share. Sensor: src/sensor_aggregator_protocol.cpp. Aggregator:
--     src/aggregator_solver_protocol.cpp. Grail: include/grail_types.hpp and src/grail_types.cpp.
--   Sockets: src/simple_sockets.cpp, socketCleanup and the member functions of ClientSocket, send as
--     send_buffer; Sockets/Connect: the constructors and ServerSocket; Sockets/Store: several objects
--     of ClientSocket, with the move operations. Sockets/Stream and Progress are about sending,
--     Delivery about sending and receiving, Retry about sending a message again, Cleanup about closing,
--     Serving about the constructor of ServerSocket, and Ownership about which object holds which
--     descriptor.
--   Exchange: messages on their way through all of these parts. Exchange/Codec is the interface of a
--     kind of message, and what holds for any kinds; Exchange/Codecs and Exchange fill it for requests,
--     Answers for what a world model answers to a client, Reports for what a solver reports to it, and
--     Samples for the samples of sensors and aggregators.
--   Clock: getGRAILTime of src/world_model_protocol.cpp and msecTime of src/sample_data.cpp.
--   Tests: the theorems at concrete inputs, and runs.
--
-- How state and operations correspond. A number is a natural number, with the wrap-around of a
-- uint32_t written out; a signed number is its bit pattern. A vector of bytes and a string of code
-- units are lists. A member function of BuffReader takes the reader and returns its result and the
-- reader after the call; a make function passes on a Draft, the two local variables; a decoder that
-- writes to its argument returns the buffer too. A host is little-endian or big-endian, and the maker
-- and the decoder may be different hosts. The receiver's calls of ClientSocket::receive and of
-- ClientSocket::inputReady, and its reads of the interrupt flag, are given beforehand as sequences;
-- a call that waits for data that does not come is an outcome of its own. A read past the end of a vector,
-- which getNextMessage makes only where an interrupt is taken back between two reads, is an outcome of
-- its own too. The answers of all other system calls are given beforehand too: what poll,
-- read and ::send return, and what is true of errno after them; a negative descriptor is none. A call
-- of a member function of ClientSocket gives its result, the object after it and the system calls made.
-- What the clocks of the system show is a parameter, for times after the beginning of 1970. An access
-- outside a vector without a test gives none in Netbuffer/Containers, and none in readSizedUTF16, whose
-- int index is its bit pattern and is extended to a size_t.
--
-- Bounds and fuel. The loops run over a list or a number of rounds, but for the one of
-- decodeOriginPreference, which takes fuel: one round more than there are weights is enough on what
-- makeOriginPreference makes; the loop of readUTF16 has its size argument as fuel, which bounds its
-- index, and printing has 64 digits for 64 bits. The loops over a socket take an answer of the system
-- in each round. A message is shorter than 2 ^ 32 bytes, since its length field holds no more, and what
-- is sent in one call shorter than 2 ^ 31, since the result of ::send is kept in an int; values are
-- those that their C++ types hold.
--
-- Not modelled: the arguments of system calls that have no effect on what is modelled, as domains and
-- time-outs, and the lines printed to std::cerr; mutexes, since one thread at a time reads; types that no
-- function uses, as DevicePosition and WorldData; and makeCertMsg and ackCertMsg, which are not defined.
pub mod Prelude
pub mod Netbuffer
pub mod Message
pub mod WorldModel
pub mod Receiver
pub mod Uint128
pub mod Sample
pub mod Sensor
pub mod Aggregator
pub mod Grail
pub mod Sockets
pub mod Exchange
pub mod Clock
pub mod Tests
