-- ===== src/Challenge.antt =====
-- The single-use login challenges: pkg/api/challenge.go.
pub mod Store
pub mod Once
