-- ===== src/Ui.antt =====
-- The ui package: its model, the handlers of Update, and what is drawn.
pub mod Model
pub mod Update
pub mod Keys
pub mod Pool
pub mod View
pub mod Listing
pub mod Publish
pub mod Speed
pub mod Screen
pub mod Share
pub mod Summary
pub mod Panels
pub mod ErrorLog
pub mod Start
pub mod Page
