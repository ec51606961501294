-- ===== src/Peggy/SendToCosmos.antt =====
-- orchestrator/ethereum/peggy/send_to_cosmos.go: a deposit that the client makes itself, and
-- GetERC20Symbol of utils.go.
use peggo.Base.{ℕ, ◌-◌, ◌^◌, Bytes, ◌++◌, ◌==◌, not, length, replicate, if◌then◌else◌}
use peggo.Effect.{Result, M, pure, lift, wrap, ◌>>=◌, ◌>>◌}
use peggo.Types.{Address, Hash}

-- The bindings of an ERC20 token and the packing of the two methods.
pub record Erc20Lib (S : Type 0) : Type 0 where
  pub new_erc20 : Address → Result (Unit {0})
  pub allowance : (erc20 owner spender : Address) → M S ℕ
  pub symbol : (erc20 caller : Address) → M S Bytes
  pub pack_approve : (spender : Address) → (amount : ℕ) → Result Bytes
  pub pack_send_to_cosmos : (erc20 : Address) → (destination : Bytes) → (amount : ℕ) → Result Bytes

abbrev pub max_uint_allowance : ℕ
max_uint_allowance = 2 ^ 256 - 1

-- Zero bytes at the end, up to 32 bytes.
unfoldable pub pad_32 : Bytes → Bytes
pad_32 address = address ++ replicate (32 - length address) 0

module _ {S : Type 0} (lib : Erc20Lib S) (send_tx : Address → Bytes → M S Hash)
    (peggy_address : Address) where
  unfoldable pub approve_max : (erc20 : Address) → M S (Unit {0})
  approve_max erc20 = do
    tx_data ← lift (lib.pack_approve peggy_address max_uint_allowance)
    send_tx erc20 tx_data
    pure tt

  unfoldable pub send_to_cosmos :
      (erc20 : Address)
      → (amount : ℕ) → (cosmos_acc_address : Bytes) → (sender_address : Address) → M S Hash
  send_to_cosmos erc20 amount cosmos_acc_address sender_address = do
    wrap "failed to get ERC20 wrapper" (lift (lib.new_erc20 erc20))
    allowance ←
        wrap "failed to get ERC20 allowance for peggy contract"
          (lib.allowance erc20 sender_address peggy_address)
    if not (allowance == max_uint_allowance) then approve_max erc20 else pure tt
    tx_data ← lift (lib.pack_send_to_cosmos erc20 (pad_32 cosmos_acc_address) amount)
    send_tx peggy_address tx_data

  unfoldable pub get_erc20_symbol : (erc20 caller : Address) → M S Bytes
  get_erc20_symbol erc20 caller = wrap "ERC20 [symbol] call failed" (lib.symbol erc20 caller)
