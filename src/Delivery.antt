-- ===== src/Delivery.antt =====
-- What the program changes in repositories: commits, pushes, the synchronisation of the main branch and
-- the clean-up of branches, and pull requests on the hosting service.
pub mod Names
pub mod Git
pub mod Hosting
