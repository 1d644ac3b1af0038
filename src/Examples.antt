-- ===== src/Examples.antt =====
-- The theorems at concrete inputs, and runs of the model. The interfaces are filled by small stand-ins
-- that show that the hypotheses can hold; they are no model of Janet or of libsystemd.
pub mod Stand
pub mod Cursor
mod Append
mod Calls
mod Events
mod Export
mod Handlers
mod Dispatch
mod Life
mod Messages
mod Connection
mod Reader
mod Registration
mod RoundTrip
mod Pending
mod Signature
mod Unwrap
