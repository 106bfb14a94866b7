-- ===== src/Script.antt =====
-- crates/qv-script: the script virtual machine.
pub mod Opcode
pub mod Instruction
pub mod Decode
pub mod Gas
pub mod Interpreter
pub mod Validate
pub mod Templates
