-- ===== src/Images.antt =====
-- The doctor's own images: src/tagClassifier.ts and src/image-retention.ts.
pub mod Tags
pub mod Retention
