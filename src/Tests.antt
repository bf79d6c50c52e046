-- ===== src/Tests.antt =====
-- Concrete runs, and the theorems at concrete inputs.
mod Ordering
mod Buffers
mod Calling
mod Handling
mod Encoding
mod Packets
mod Pages
mod Roots
mod Listings
mod Dispatching
mod Merging
mod Naming
mod Reading
mod Replies
mod Serving
mod Writing
mod Setting
