-- ===== src/Routing.antt =====
-- Provider routing: the policy that selects a provider, the plan that bounds its execution and the
-- gateway that executes the plan (packages/core/src/application).
pub mod Machine
pub mod Failure
pub mod Contracts
pub mod Policy
pub mod Plan
pub mod Bindings
pub mod Profile
pub mod Response
pub mod Planner
pub mod Gateway
mod Tests
