-- ===== src/Reassembly/Depth.antt =====
-- reassembly.py: `_subtree_depth` ends, and its result is the depth of the levels below the root.
pub mod Queueing
pub mod Loop
pub mod Counts
