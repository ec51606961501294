-- ===== src/Keys/Crypto.antt =====
-- What the keys take from libraries: the cryptography of go-ethereum. A signature, a private key and
-- a transaction are types of the library.
use peggo.Base.{ℕ, Bytes}
use peggo.Effect.{Result}
use peggo.Types.{Address, Hash}

pub record CryptoLib : Type 1 where
  pub PrivateKey : Type 0
  pub Tx : Type 0
  pub sha1 : Bytes → Bytes
  pub address_bytes : Address → Bytes  -- account[:]
  pub decrypt_key : (key_json : Bytes) → (password : Bytes) → Result PrivateKey
  pub pubkey_to_address : PrivateKey → Address
  pub text_hash : Bytes → Hash
  pub sign : Hash → PrivateKey → Result Bytes
  pub hex_to_ecdsa : Bytes → Result PrivateKey
  pub new_keyed_transactor_with_chain_id : PrivateKey → ℕ → Result (Address → Tx → Result Tx)

-- bind.SignerFn and PersonalSignFn, over the state that a hardware wallet changes.
abbrev pub SignerFn : CryptoLib → Type 0
SignerFn lib = Address → lib.Tx → Result lib.Tx

abbrev pub PersonalSignFn : Type 0
PersonalSignFn = Address → Bytes → Result Bytes
