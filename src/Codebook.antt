-- ===== src/Codebook.antt =====
-- Source code: internal/repository/dao/codebook.go, internal/repository/codebook.go and
-- internal/service/codebook/codebook.go.
pub mod Table
pub mod Versions
pub mod Writing
pub mod Sorting
pub mod Projects
pub mod Service
pub mod Tree
