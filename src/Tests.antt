-- ===== src/Tests.antt =====
-- Runs of the model on small inputs, and each theorem with hypotheses at an input that meets them.
mod S3
mod Localfs
mod Sftp
mod Ui
mod Pool
mod Keys
mod Bulk
mod Press
mod Speed
mod Screen
mod Share
mod Session
mod Panels
mod Config
mod Program
mod Web
mod View
mod Listing
mod Wire
