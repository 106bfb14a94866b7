-- ===== src/Script/Interpreter.antt =====
-- crates/qv-script/src/interpreter.rs: the stack machine.
pub mod Value
pub mod Context
pub mod Stack
pub mod Arith
pub mod Wide
pub mod Signatures
pub mod Introspect
pub mod Bytestrings
pub mod Step
pub mod Safety
pub mod Metering
pub mod MultiSig
pub mod Panic
pub mod Structured
