-- ===== src/Discovery.antt =====
-- pkg/proxy/discovery: the parts modelled are the child modules.
pub mod SshAccess
pub mod Sweep
pub mod Params
pub mod When
pub mod Facts
pub mod Pack
pub mod Executor
pub mod Inventory
pub mod Proxy
pub mod Limits
