-- ===== src/Decoder.antt =====
-- The message decoders of include/zrsocket: MessageCommon, FixedLengthMessageHandler and
-- LengthFieldMessageHandler.
pub mod Common
pub mod FixedLength
pub mod LengthField
mod Tests
