-- ===== src/Tests.antt =====
-- Concrete inputs: runs of the definitions, and each theorem with hypotheses at an input that meets
-- them.
mod Data
mod Stores
mod Records
mod Uploads
mod Files
mod Api
mod Small
mod Audits
