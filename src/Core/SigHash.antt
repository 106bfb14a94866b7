-- ===== src/Core/SigHash.antt =====
-- crates/qv-core/src/transaction.rs: what `sighash` depends on.
use l1_chain.Base.{ℕ, ◌≡◌, refl, ap, List, [], ◌∷◌, map}
use l1_chain.Crypto.{Crypto}
use l1_chain.Core.Tx.{TxInput, Transaction, Serializer, without_witness, sighash}

-- Each input with another witness
abbrev pub rewitness : (TxInput → List ℕ) → TxInput → TxInput
rewitness f i = record i { witness = f i }

abbrev pub signed : (TxInput → List ℕ) → Transaction → Transaction
signed f tx = record tx { inputs = map (rewitness f) tx.inputs }

without_witness-rewitness :
    (f : TxInput → List ℕ) (is : List TxInput)
    → map without_witness (map (rewitness f) is) ≡ map without_witness is
without_witness-rewitness f [] = refl
without_witness-rewitness f (i ∷ is) =
    ap (λ l. without_witness i ∷ l) (without_witness-rewitness f is)

-- Whatever is written into the witnesses, input by input, `sighash` is the same; so a signature
-- over it may itself be put into a witness.
sighash-signed :
    (c : Crypto) (serialize : Serializer) (f : TxInput → List ℕ) (tx : Transaction)
    → sighash c serialize (signed f tx) ≡ sighash c serialize tx
unfolding sighash
sighash-signed c serialize f tx = rw (without_witness-rewitness f tx.inputs) refl
