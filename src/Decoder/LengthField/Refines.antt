-- ===== src/Decoder/LengthField/Refines.antt =====
-- The decoder of messages with a length field in terms of Framing.
mod Head
mod Direct
mod Buffered
mod Rounds
unfoldable pub use Head.*
pub use Direct.{Ends, FeedsLength}
pub use Rounds.*
