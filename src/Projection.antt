-- ===== src/Projection.antt =====
-- The projection of the mail store into a view: appshak_projection/.
pub mod View
pub mod Projector
pub mod Newer
pub mod Resumes
pub mod Statuses
