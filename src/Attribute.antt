-- ===== src/Attribute.antt =====
-- The typed AVPs of xcesp_l2tpv3d/avp.py: one builder and one decoder for each attribute. A text is
-- represented by its UTF-8 bytes.
pub mod Build
pub mod Decode
pub mod RoundTrip
pub mod Errors
