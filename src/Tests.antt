-- ===== src/Tests.antt =====
-- Runs of the models at fixed inputs, and the theorems at inputs that meet their hypotheses.
mod McpTests
mod SigningTests
mod RegistryTests
mod HandlerTests
mod SecretsTests
mod SweepTests
mod ParamsTests
mod PackTests
mod ScopeTests
mod SshTests
mod HttpTests
mod ClientTests
