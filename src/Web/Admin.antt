-- ===== src/Web/Admin.antt =====
-- The admin's page: frontend/src/app/admin/AdminPageContent.tsx, without what it renders.
pub mod Numbers
pub mod Forms
pub mod Server
pub mod Dialogs
pub mod Address
pub mod Fleet
