-- ===== src/Asn1.antt =====
-- asn1/: the structures of the SGP.32 ESipa interface.
pub mod Tlv
pub mod BitString
pub mod Codec
pub mod Download
pub mod Notification
pub mod Depth
pub mod Search
pub mod Acknowledgements
pub mod DownloadResult
pub mod Oid
pub mod Package
pub mod Result
pub mod IpaData
pub mod Esipa
