-- ===== src/Text.antt =====
-- Text as bytes: the UTF-8 check of src/qwfn_files.cpp.
pub mod Utf8
pub mod Encoding
pub mod Accepts
pub mod Cut
pub mod Examples
