-- ===== src/Lib.antt =====
-- A verification library for the HTTP proxy server.
--
-- The server joins two kinds of connections, those of clients, which ask for a device, and those
-- that the devices' own servers open, and passes the bytes of one on to the other. A worker thread
-- reads a connection with an HTTP stream, which parses the header of each message (core/http.cpp,
-- `http_parser`), finds how its body is framed, and hands the body on in buffers.
--
-- Base.antt: lists, texts and Boolean tests on native numbers that the modules share.
-- Cstring.antt: `strtoul` of base/cstring.cpp with the C functions below it.
-- Uri.antt: the URI codec of core/http.cpp. A pointer into a text is the list of the bytes from
--   there on, with the memory behind the text, so that reads past the end of a text can be stated.
-- Http/Status.antt: the tables of status lines and `http_get_status_line`.
-- Http/Parser.antt: `http_parser` of core/http.h and core/http.cpp. Types.antt has its members and
--   classes of bytes, FirstLine.antt `parse_first_line`, HeaderLine.antt `parse_header_line`,
--   `parse_trailer` and `parse_header`, BodyInfo.antt `get_body_info`. A pointer into the text is
--   its offset. The map of headers is an association list, in which `insert` keeps the first value.
-- Http/Stream.antt: the reading half of `http_stream`. What `recv` gives is an argument, what is
--   done with a request a function that stands for `handle_special_request` and
--   `connection::handle_uri`, and what a call hands on is in its result. A failed `assert` is a
--   result of its own, as is a read behind what was received. An `io_exception` of the partner's
--   `async_send` in `onBody` is not represented.
-- Http/Response.antt: the writing half of `http_stream`: `send_response`, `send_error`, `send_ok` and
--   `send_crossdomain`, with the bytes that are written and the size of the buffer they go to.
-- Http/Relay.antt: `read_message_no_parse` of `http_stream`, which passes a server's bytes on.
-- Worker.antt: the pipe of `worker` in core/worker.cpp, with its writers and its reader.
-- Buffer.antt: `buffer_queue` of core/buffer.h: chains of buffers on a heap, with `push`, `pop`, `clear` and
--   the move of one queue behind another. The count of bytes wraps around as a `size_t` does.
-- CircleBuffer.antt: `circle_buffer` of base/circle_buffer.h.
-- Connection/Output.antt: `connection::async_send_impl` of core/connection.cpp. What `send` returns
--   is a function of the call and of the bytes it is given.
-- Connection/Pairs.antt: `connection::match(connection*,bool)` and `connection::close(flag)`, on a
--   store of the connections that live. What they write is met by how the loop of
--   `async_send_impl` ends, which is an argument.
-- Connection/Tables.antt: `client_conn_table` and `server_conn_table` of core/connection.cpp.
-- Connection/UriInfo.antt: `get_uri_info` of core/connection.cpp, with the C functions it calls.
-- Connection/Partner.antt: `match_client`, `match_server` and `match(sock,is_client)`, which choose a
--   partner from the tables; the choice is a value, and `perform` makes the match on the store. Their
--   assertions on `host_` are in them; Partner/Ready.antt is the end of `handle_uri` for a server.
-- Connection/Request.antt: `handle_uri`, `handle_special_request` and `onHeader`: what is done with a
--   request, from its target and the connection's device.
-- IniFile.antt: the values of `ini_file` of base/ini_file.cpp, with `trim` of base/cstring.h, and
--   IniFile/Parse.antt: `getline` and `parsecontent`, on the bytes of the file.
-- BasicPool.antt: `basic_pool` of mem/basic_pool.h and mem/basic_pool.cpp. What `malloc` returns is a
--   function of the number of the call, and a free list is the list of its blocks.
-- IoExt.antt: `readn`, `writen` and `get_iov_tran_index` of ipc/io_ext.cpp.
-- Tests.antt: the theorems at concrete inputs.
--
-- Bytes are numbers below 256, an `unsigned long` is a number with its wrap-around written out.
-- The loops run over the bytes of a text by recursion on it, except the decoders of a URI, which
-- run on fuel: `len` rounds, each of which uses at least one of the `len` bytes, so they end before
-- the fuel does; the loops on queues, which run on fuel for each buffer or each byte, as their
-- theorems say; `read_message_no_parse`, on fuel above the high mark of the queue it fills; and
-- `chunk_alloc`, whose fuel is the depth of its calls. The doubling of a buffer cannot overflow: its
-- size is bounded by the largest header.
--
-- Not modelled: sockets, events and threads, TLS, configuration and logging, which are calls of the
-- system and of other libraries; the memory pools around `basic_pool`; `send_system_info`; the message
-- to the devices that `request_new_server` sends; the opening of an ini file.
pub mod Base
pub mod BasicPool
pub mod Buffer
pub mod CircleBuffer
pub mod Connection
pub mod Cstring
pub mod Http
pub mod IniFile
pub mod IoExt
pub mod Tests
pub mod Uri
pub mod Worker
