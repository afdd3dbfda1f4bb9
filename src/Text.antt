-- ===== src/Text.antt =====
-- The string helpers of src/myfcp/genstring.c. A C string is the list of its bytes before the
-- terminator.
pub mod Base64
pub mod Fields
pub mod PathName
pub mod Trim
