-- ===== src/Heap.antt =====
-- lib/heap_domain.c: one size class, the large allocations, and the entry points that route
-- requests and pointers to them.
pub mod Domain
pub mod Large
pub mod LargeSize
pub mod Route
pub mod Chain
pub mod Lifo
pub mod Link
pub mod LinkPage
pub mod Expand
pub mod NewPage
pub mod Outside
pub mod Growth
pub mod PageView
pub mod Classes
pub mod InPage
pub mod RoundTrip
pub mod Live
pub mod Owned
pub mod Rebuild
pub mod NewBlocks
pub mod Held
pub mod Histories
