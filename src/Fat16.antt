-- ===== src/Fat16.antt =====
-- The file system of penguin-fat16/kmodule: the layout of the volume, the names of the directory
-- entries, the clusters, the walk over a directory, and mounting.
pub mod Layout
pub mod Name
pub mod Cluster
pub mod Dir
pub mod File
pub mod Inode
pub mod Super
