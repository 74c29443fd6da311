-- ===== src/Links.antt =====
-- backend/app/services/link_service.py and link_utils.py: links between interfaces and networks,
-- and the implicit bridges behind links between two nodes.
pub mod Keys
pub mod Ids
pub mod Records
pub mod Create
pub mod Delete
pub mod Cache
pub mod Service
pub mod WellFormed
mod Tests
