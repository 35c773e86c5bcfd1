-- ===== src/Lib.antt =====
-- A model of AudioServer, a server that receives blocks of PCM samples over TCP, each in a binary
-- message, and encodes them with libav into a transport stream.
--
-- The parts and how they interact. A client packs messages with the functions of interface.cpp,
-- which use the packing of protocol.h and protocol.cpp. The server's class server_session
-- (Server.cpp) reads the five bytes of a head and then the body, parses them into its CommonMessage,
-- calls the handler for the message's type, and sends an answer that it builds with the same
-- functions. A block of samples is checked against the checksum at its end (crc.cpp, Server.cpp),
-- resampled into a FIFO, and encoded frame by frame (ffmpeg_utils.cpp, libav).
--
-- Which file models what:
--   Common      numbers, tests, lists, bytes and buffers that the other files share;
--   Protocol    protocol.h and protocol.cpp up to line 174: heads, parameters, and
--               package_message_common, whose overloads for 1 to 14 parameters are one function of a
--               list of arguments. Protocol/Frame has the format of a message as a function to bytes
--               that is independent of the code;
--   Message     the class CommonMessage of protocol.h and protocol.cpp: parse_message_head,
--               parse_message, get_parameter_value, get_parameter_content;
--   Interface   interface.h, interface.cpp and interface_constants.h: the builders and the getters;
--   Crc         crc.cpp, and pack_crc and validate_crc of Server.cpp. Crc/Bitwise has the division
--               of polynomials bit by bit;
--   Ffmpeg      ffmpeg_utils.cpp, over libav as a parameter. Ffmpeg/Contract has what the loops of
--               Server.cpp rely on, Ffmpeg/Ledger counts resources of nine kinds that are held, and
--               Ffmpeg/Order has which calls come before which;
--   Session     the class server_session of Server.cpp: its handlers, and the events as steps.
--               Session/Handled has all that the handler of a body can do, Session/Phases a session
--               without the messages' contents, and Session/Conversation the bytes that a client
--               sends and the answers that it gets;
--   System      System.h and System.cpp: the settings, over a property tree as a parameter;
--   Server      the class Server of Server.h and Server.cpp, and AudioServer.cpp: what main starts,
--               accepting connections, and all sessions with their events in any order.
--               Server/Output has open_output_file and the destructor, and Server/Clients a
--               client that connects and converses with its session;
--   PackData    pack_data.h and pack_data.cpp, which the server does not call;
--   Tests       inputs on which the theorems are applied.
--
-- How the code's state corresponds. A buffer is a function from an index to a byte. An object is a
-- record of its members, and a function that changes it returns the changed record. A function that
-- returns bool and sets a reference returns an Option. The operations that a session has started
-- are a list, and an event ends the first of them and calls its handler. The calls of libav and of
-- calloc answer from a parameter, and are recorded in a list.
--
-- Bounds and fuel. Numbers are natural numbers, and every assignment to a narrower type is reduced
-- modulo its size (u8, u16, u32). The loop of parse_message has fuel for one round more than the
-- body has bytes, which is enough since every round takes four bytes. The loops that receive packets
-- and encode frames have fuel as an argument, since libav decides when they end: more than the FIFO
-- holds samples, and more than the encoder has packets ready, is enough. The time stamp is an
-- int64_t: when it would come to 2^63, the outcome is undefined. So is the outcome of a call of libav
-- on a null FIFO, as the server's is, and of a conversion whose input is an array of samples that was
-- cast to an array of pointers, as process_pcm_data_send_request does. message_data_ is the first
-- 16,384 bytes of a buffer, and nothing is said of what the source finds behind them.
--
-- Not modelled: what libav and boost::asio do inside, messages on the console, and the threads (one
-- thread runs the io_service, and the other sleeps). System::instance is the settings as an argument.
pub mod Common
pub mod PackData
pub mod Protocol
pub mod Message
pub mod Interface
pub mod Crc
pub mod Ffmpeg
pub mod Session
pub mod System
pub mod Server
pub mod Tests
