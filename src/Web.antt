-- ===== src/Web.antt =====
-- The pages in the browser: the libraries of frontend/src/lib, and the components and the context
-- that decide what a visitor sees.
pub mod Phone
pub mod Navigation
pub mod Api
pub mod Admin
pub mod Numerals
pub mod Trim
pub mod Forms
pub mod Home
pub mod Account
