-- ===== src/Dashboard.antt =====
-- public/js: the page that shows the orders, the dead letters and the stages of one order. What the
-- server answers is a parameter; ids are texts here.
pub mod Dom
pub mod Fetch
pub mod Sidebar
pub mod Timeline
pub mod App
