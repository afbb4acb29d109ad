-- ===== src/Examples.antt =====
-- The theorems at concrete inputs: cells and fragments, circuits, headers. `Toy` has the
-- primitives that they run with.
pub mod Toy
mod Wire
pub mod Circuits
pub mod Headers
pub mod Building
pub mod Pair
pub mod Links
mod Streams
mod Sessions
pub mod Tables
mod Searches
