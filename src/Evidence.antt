-- ===== src/Evidence.antt =====
-- internal/evidence: the evidence that an attempt is shown, the citations of a report, and how a
-- report is judged.
pub mod Citation
pub mod Item
pub mod Issuer
pub mod Report
pub mod Draft
