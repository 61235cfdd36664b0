-- ===== src/Patch.antt =====
-- pkg/patch: a git patch as a preamble and independent sections, one for each file.
pub mod Change
pub mod Sections
pub mod Parse
pub mod Render
pub mod Bounds
pub mod RoundTrip
