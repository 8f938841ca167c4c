-- ===== src/Cvsp.antt =====
-- The free and busy nodes in the memory of a trunk of src/cvspool.c, and the pool above the trunks.
pub mod Nodes
pub mod Ring
pub mod Rings
pub mod Fields
pub mod Trunk
pub mod Alloc
pub mod Pool
pub mod Iterate
pub mod Init
pub mod Adjusted
pub mod Opened
pub mod Visits
pub mod Free
pub mod Tiles
pub mod Links
pub mod Valid
pub mod Unlink
pub mod Region
pub mod Lengths
pub mod Split
pub mod Divide
pub mod Search
pub mod Give
pub mod Allocation
pub mod Fresh
pub mod Outer
pub mod MergePrev
pub mod Joined
pub mod MergeNext
pub mod AddLast
pub mod Freeing
pub mod Branches
pub mod Release
pub mod Clean
pub mod Coalesced
pub mod Again
pub mod Serving
pub mod Sizes
mod Tests
