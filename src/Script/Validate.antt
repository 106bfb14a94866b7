-- ===== src/Script/Validate.antt =====
-- crates/qv-script/src/script.rs: the entry point of the ledger.
use l1_chain.Base.{ℕ, List, ◌++◌}
use l1_chain.Crypto.{Crypto}
use l1_chain.Core.Tx.{Transaction, TxOutput, Serializer}
use l1_chain.Script.Instruction.{Instruction, encode_instructions}
use l1_chain.Script.Gas.{meter, default_gas_limit}
use l1_chain.Script.Interpreter.Value.{Script}
use l1_chain.Script.Interpreter.Context.{new_context, with_locking_script}
use l1_chain.Script.Interpreter.Step.{ExecResult, execute}

module _ (c : Crypto) (serialize : Serializer) where
  unfoldable pub validate_script_with_gas :
      List ℕ → List ℕ → Transaction → List TxOutput → ℕ → ℕ → Script ExecResult
  validate_script_with_gas locking_script witness tx resolved_inputs current_slot gas_limit =
      let ctx =
        with_locking_script c (new_context c serialize tx resolved_inputs current_slot)
          locking_script in
      execute c ctx (witness ++ locking_script) (meter gas_limit)

  unfoldable pub validate_script :
      List ℕ → List ℕ → Transaction → List TxOutput → ℕ → Script ExecResult
  unfolding validate_script_with_gas
  validate_script locking_script witness tx resolved_inputs current_slot =
      validate_script_with_gas locking_script witness tx resolved_inputs current_slot
        default_gas_limit

-- `compile`
unfoldable pub compile : List Instruction → List ℕ
unfolding encode_instructions
compile is = encode_instructions is
