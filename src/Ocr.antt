-- ===== src/Ocr.antt =====
-- app/modules/ocr: what is made of the fields that the OCR provider extracts, and the credit it costs.
pub mod Domain
pub mod Policy
pub mod Commands
pub mod Accepted
pub mod Charged
