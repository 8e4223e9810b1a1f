-- ===== src/Common/Text.antt =====
-- Byte strings: a Go `string` that the program measures or walks is the list of its bytes.
mod Base
pub mod Space
unfoldable pub use Base.*
