-- ===== src/Bytes.antt =====
-- Byte slices, and the parts of Go's encoding/binary and bytes packages that the program calls.
mod Laws
mod Order
unfoldable pub use Laws.*
unfoldable pub use Order.*
