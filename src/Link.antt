-- ===== src/Link.antt =====
-- core/link: the ARQ/FEC/RXO link state machine and its pure parts.
pub mod Quality
pub mod Session
pub mod Bandwidth
pub mod DataModes
pub mod Frames
pub mod State
pub mod Turn
pub mod Disc
pub mod Send
pub mod Iss
pub mod Irs
pub mod Fec
pub mod Host
pub mod Timer
pub mod Step
pub mod Actions
pub mod Settings
pub mod Flow
pub mod Queue
pub mod Closing
mod Tests
