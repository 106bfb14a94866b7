-- ===== src/Crypto.antt =====
-- crates/qv-crypto, as far as scripts call it: the hashes of hash.rs and the signatures of
-- pqc_sign.rs. The digests and the ML-DSA verifier are other crates (`sha3`, `blake3`, `ml-dsa`),
-- so they are the fields of a record.
use l1_chain.Base.{ℕ, String, ◌≡◌, Bool, true, false, List, length, ltb, ◌==◌, if◌then◌else◌, ◌||◌}
use l1_chain.Base.Bytes.{IsBytes}
use l1_chain.Base.Outcome.{Outcome, ok, err}

-- `DilithiumLevel`
pub data DilithiumLevel : Type 0 where
  level2 level3 level5 : DilithiumLevel

-- What the program takes from other crates. `ml_dsa_verify` decodes a key and a signature of the
-- right lengths and verifies; it is `false` where the signature does not decode.
pub record Crypto : Type 0 where
  pub sha3_digest : List ℕ → List ℕ
  pub blake3_digest : List ℕ → List ℕ
  pub verifying_key_len : DilithiumLevel → ℕ
  pub signature_len : DilithiumLevel → ℕ
  pub ml_dsa_verify : DilithiumLevel → List ℕ → List ℕ → List ℕ → Bool

-- Both digests have 32 bytes.
pub record IsLawful (c : Crypto) : Type 0 where
  pub sha3_len : (d : List ℕ) → length (c.sha3_digest d) ≡ 32
  pub sha3_bytes : (d : List ℕ) → IsBytes (c.sha3_digest d)
  pub blake3_len : (d : List ℕ) → length (c.blake3_digest d) ≡ 32
  pub blake3_bytes : (d : List ℕ) → IsBytes (c.blake3_digest d)

-- `CryptoError`
pub data CryptoError : Type 0 where
  invalid_size : ℕ → ℕ → CryptoError
  hash_failed key_generation_failed sign_failed signature_rejected : CryptoError
  encapsulation_failed decapsulation_failed malformed_ciphertext malformed_public_key : CryptoError
  other : String → CryptoError

-- `PqcPublicKey` and `PqcSignature`
pub record PqcPublicKey : Type 0 where
  pub level : DilithiumLevel
  pub raw : List ℕ

pub record PqcSignature : Type 0 where
  pub level : DilithiumLevel
  pub raw : List ℕ

-- `sha3_256` and `blake3`
abbrev pub sha3_256 : Crypto → List ℕ → List ℕ
sha3_256 c d = c.sha3_digest d

abbrev pub blake3 : Crypto → List ℕ → List ℕ
blake3 c d = c.blake3_digest d

-- `PqcPublicKey::from_bytes`
unfoldable pub public_key_from_bytes :
    Crypto → DilithiumLevel → List ℕ → Outcome CryptoError PqcPublicKey
public_key_from_bytes c level raw =
    if length raw == c.verifying_key_len level
    then ok (record { level = level; raw = raw })
    else err (invalid_size (c.verifying_key_len level) (length raw))

-- `PqcSignature::from_bytes`
unfoldable pub signature_from_bytes :
    Crypto → DilithiumLevel → List ℕ → Outcome CryptoError PqcSignature
signature_from_bytes c level raw =
    if (length raw == 0) || ltb (c.signature_len level) (length raw)
    then err (invalid_size (c.signature_len level) (length raw))
    else ok (record { level = level; raw = raw })

abbrev same_level : DilithiumLevel → DilithiumLevel → Bool
same_level level2 level2 = true
same_level level3 level3 = true
same_level level5 level5 = true
same_level _ _ = false

-- `verify_level`
unfoldable pub verify_level :
    Crypto → DilithiumLevel → List ℕ → List ℕ → List ℕ → Outcome CryptoError Bool
verify_level c level pk msg sig =
    if length pk == c.verifying_key_len level
    then (if length sig == c.signature_len level
        then ok (c.ml_dsa_verify level pk msg sig)
        else err (invalid_size (c.signature_len level) (length sig)))
    else err malformed_public_key

-- `verify`, which scripts call as `verify_pqc`
unfoldable pub verify_pqc : Crypto → PqcPublicKey → List ℕ → PqcSignature → Outcome CryptoError Bool
unfolding verify_level
verify_pqc c pk msg sig =
    if same_level pk.level sig.level
    then verify_level c pk.level pk.raw msg sig.raw
    else err (other "public key and signature target different parameter sets")
