-- ===== src/Lib.antt =====
-- axon.go: the core types of an IOTA node's protocol in Go. This library models the parts of it that
-- compute, and proves that they are correct.
--
-- The parts, the files that model them and the code they stand for:
--   * Common: what the other files share. `Result` is what a call of a Go function comes to: a value,
--     an error or a panic; an error is the sentinel error that it wraps, without its message.
--     `Common.Int` has integers over the native natural numbers, for int64 and big.Int.
--   * SafeMath: the checked arithmetic of github.com/iotaledger/hive.go/core/safemath, a parameter
--     with the laws that its documentation states, and an instance of it for the tests.
--   * TimeProvider: timeprovider.go. `new_time_provider`, `slot_from_time`, `slot_start_time`,
--     `slot_end_time`, `epoch_from_slot`, `epoch_start`, `epoch_end`, `slots_before_next_epoch` and
--     `slots_since_epoch_start` are the methods of the same names. Slots and epochs are uint32 and
--     wrap around; a time is a number of nanoseconds, and `Time.Sub` saturates as Go's does.
--   * Mana: mana_decay_provider.go and mana.go. Mana.FixedPoint has the multiplication of a uint64 in
--     two halves by a factor with a binary exponent; Mana.Decay has the provider, the decay of Mana
--     over epochs and the Mana that an amount of base tokens generates between two slots, which asks
--     the time provider for epochs and distances. The loop of `decay` is on fuel, as many rounds as
--     there are epochs: each round takes at least one epoch away.
--   * Merkle: merklehasher/merkle_hasher.go and merklehasher/merkle_proof.go, with the hash function
--     and the serialization of a value as parameters. `Hash` and `computeProof` are on fuel, the
--     length of the list: each recursive call is on a shorter list.
--   * TokenScheme: token_scheme_simple.go and token_scheme.go, the counters of minted and melted
--     native tokens of a foundry and the three transitions of it.
--   * Nova: vm/nova/vm.go and the parts of vm/vm.go that it uses. Nova.Staking is the transition of
--     an account's staking feature, and Nova.Staking.Bond the history of such a feature;
--     Nova.Delegation that of a delegation output; Nova.Foundry the foundry counter of an account,
--     the serial numbers of new foundries, and the creation and destruction of a foundry, which call
--     the token scheme; Nova.BlockIssuer the totals of Mana of a transaction, their balance, and the
--     lock of a block issuer's Mana, which call the decay provider; Nova.Anchor and Nova.Nft the
--     transitions of those outputs; Nova.Account those of accounts and of implicit accounts, which
--     run the ones of the features and of the foundry counter. Each file has the fields of the
--     outputs and of the working set that its functions read; an identifier is the number that its
--     bytes spell; a map of the code is a list in one order of its entries.
--   * Address, Outputs: address.go, address_multi.go, address_restricted.go and signature_ed25519.go;
--     output.go, the files of the outputs, unlock_cond.go and the identifiers of chains. Hash
--     functions, the verification of a signature and the serialization of what is hashed are the
--     fields of a record `Crypto` without laws. A set of conditions or features has a field for each
--     type, since a set with two of a type makes the code panic.
--   * Base32: bech32/internal/base32/base32.go, bytes as digits of 5 bits and back. The loops over
--     blocks are structural; the counts of what is written before an error are left out.
--   * Bech32: bech32/bech32.go, bech32/chars.go and bech32/errors.go, with bech32/checksum.go in
--     Bech32.Checksum: the encoding of bytes with a human-readable part and a checksum. A text is the
--     list of its bytes; the case that Unicode gives to characters outside of US-ASCII is left out.
--   * Vm: vm/vm.go. Vm is the set of unlocked addresses, with its objects in a list of cells and its
--     maps as lists of pointers; Vm.Unlocking unlocks an address by an unlock; Vm.Inputs is
--     `ValidateUnlocks` with the owners of inputs and the chains that they unlock; Vm.Backed says when
--     an address is unlocked, without the order of inputs and unlocks. Vm.Execution, Vm.BaseTokens and
--     Vm.NativeTokens are the functions that are executed on a transaction. The inputs of a transaction
--     are those of its input set, and an identifier of an output stands in it once.
--   * Unlocks: unlock.go, the validator of the unlocks of a transaction: the state of its closure, the
--     step for one unlock with the loop over a multi unlock, and the loop over all unlocks.
--   * Syntax: syntax_validator.go, the syntactic validation of transaction.go, transaction_essence.go,
--     output.go, input.go, input_context.go and allotment.go, and bitmask.go. Here an output has its
--     conditions and features as the slices of the source: Syntax.Parts has these and the sets that
--     `MustSet` makes of them, Syntax.Outputs the outputs, Syntax.StorageScore the storage scores and
--     deposits of storagescore.go with the sizes of what is serialized, Syntax.Checks the validators of
--     an output, Syntax.Transaction the ones of the essence and the whole `SyntacticallyValidate`. The
--     variables that the closures of the validators capture are a state that is passed on.
--   * Tests: the models at concrete inputs.
--
-- Not modelled: the serialization (hive.go's serix) with the limits of lengths that it checks, JSON,
-- the node clients, the builders and the wallet, which only call the core or do input and output;
-- signatures and hash functions, which are libraries; the selection of a transition by the type of an
-- output; work scores and the versions of the protocol.
pub mod Common
pub mod SafeMath
pub mod TimeProvider
pub mod Mana
pub mod Merkle
pub mod TokenScheme
pub mod Address
pub mod Outputs
pub mod Base32
pub mod Bech32
pub mod Nova
pub mod Unlocks
pub mod Vm
pub mod Syntax
pub mod Tests
