-- ===== src/Families.antt =====
-- The family services (app/services/families), which choose a tool and pass its result on.
pub mod WebSearch
