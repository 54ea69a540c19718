-- ===== src/Teardown.antt =====
-- internal/teardown: the controller talos-machine-teardown.
pub mod Api
pub mod Qualify
pub mod Effect
pub mod Controller
pub mod Address
pub mod Credentials
pub mod Etcd
pub mod Peers
pub mod HookPhase
pub mod EtcdPhase
pub mod ResetPhase
pub mod Reconcile
pub mod Setup
mod Quiet
pub mod Order
pub mod Gate
pub mod Liveness
pub mod Deadline
pub mod Clients
mod Scenario
mod Tests
mod Runs
