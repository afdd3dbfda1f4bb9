-- ===== src/Libc.antt =====
-- The functions of the C library that the parsers of src/myfcp call on texts. A text is the bytes
-- before its terminator; a buffer is all the bytes of an object.
pub mod Numbers
pub mod Buffers
pub mod Lines
unfoldable pub use Numbers.*
unfoldable pub use Buffers.*
