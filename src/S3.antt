-- ===== src/S3.antt =====
-- transfer/s3backend: the client, its part arithmetic, the resume of a multipart upload, and the
-- parts of the S3 service that they rely on.
pub mod Client
pub mod Service
pub mod Parts
pub mod Existing
pub mod Missing
pub mod Resume
pub mod Keys
pub mod Stat
pub mod Wire
