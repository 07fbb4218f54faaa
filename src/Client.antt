-- ===== src/Client.antt =====
-- The client of src/client: what it sends, what it reads, and what it prints.
pub mod Deserializer
pub mod Lines
pub mod Decimals
pub mod Replies
pub mod RoundTrip
pub mod Ends
pub mod Printer
pub mod Program
pub mod Wire
pub mod Exchange
