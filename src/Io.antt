-- ===== src/Io.antt =====
-- Reading a fixed number of bytes from a descriptor whose `read` may return fewer, be interrupted
-- by a signal, fail, or meet the end of the stream.
pub mod Stream
pub mod ReadFull
