-- ===== src/Tests.antt =====
-- The definitions at concrete inputs, and the theorems at inputs that meet their hypotheses.
mod Time
mod Encoding
mod ManaDecay
mod MerkleTree
mod Tokens
mod Chains
mod Creation
mod Transactions
mod Unlocking
mod UnlockedAddresses
mod Execution
mod Anchors
mod Mana
mod Accounts
