-- ===== src/Detector.antt =====
-- services/sensitive_data_detection.py: the findings in a text and their replacement.
pub mod State
pub mod Sorting
pub mod Dedupe
pub mod Masks
pub mod Redact
pub mod Apart
pub mod Disjoint
pub mod Laid
pub mod Spliced
mod Examples
