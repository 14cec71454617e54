-- ===== src/Http/Parser.antt =====
-- `http_parser` of core/http.h and core/http.cpp: its state, its classes of bytes and `reset`; the
-- two line parsers are the children FirstLine and HeaderLine, `get_body_info` is BodyInfo. The data
-- given to a parser is the list of its `len` bytes; a pointer into it is an offset. A `char` is a
-- byte below 256, whose values from 128 on are negative.
pub mod Types
pub mod FirstLine
pub mod HeaderLine
pub mod HeaderMap
pub mod BodyInfo
pub mod Message
