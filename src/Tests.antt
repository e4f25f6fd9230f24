-- ===== src/Tests.antt =====
-- Concrete instances of what the development takes as parameters, and runs at concrete inputs.
pub mod Sorting
pub mod Client
pub mod Rows
pub mod Sites
mod Pages
mod Entry
mod Core
mod Worker
mod Texts
mod Owners
mod Web
mod Fetching
mod Grouping
mod Charts
