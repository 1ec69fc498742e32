-- ===== src/Bootstrap/Release.antt =====
-- What the process holds of the libraries, read off what it asked of them.
pub mod Held
pub mod Opening
pub mod Started
pub mod Whole
pub mod Closing
