-- ===== src/Agents.antt =====
-- internal/agents: the registry of active agents.
pub mod HubDispatch
pub mod Registry
pub mod DiffPolicy
pub mod GitSync
pub mod HubRun
pub mod KeySweep
