-- ===== src/Sandbox.antt =====
-- nexau/archs/sandbox: what the sandboxes make of the output of a command.
pub mod Output
