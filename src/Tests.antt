-- ===== src/Tests.antt =====
-- Concrete runs of the models, on the data of `Tests/Data.antt`.
mod Data
mod Keys
mod Storage
mod Routing
mod Requests
mod Models
mod Console
mod Handled
