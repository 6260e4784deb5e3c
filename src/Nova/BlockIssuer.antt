-- ===== src/Nova/BlockIssuer.antt =====
-- vm/nova/vm.go, vm/vm.go and output.go: the Mana of a transaction and the block issuer feature of an
-- account, which locks the account's Mana. The storage score of an output is a field of it.
pub mod Locked
pub mod Balance
use axon_go.Common.{
  ℕ, ◌+◌, ◌==◌, Bool, true, false, not, ◌&&◌, Option, none, some, List, [], ◌∷◌, ltb, leb,
  if◌then◌else◌, u32,
}
use axon_go.Common.Int.{ℤ, pos, ltb_ℤ}
use axon_go.Common.Result.{Result, ok, err, panic, ◌>>=◌, ◌>>◌, reject_if}
use axon_go.SafeMath.{SafeMath}
use axon_go.Mana.FixedPoint
use axon_go.Mana.FixedPoint.{integer_overflow}
use axon_go.Mana.Decay.{ManaDecayProvider, decay_mana_by_slots, generate_mana_and_decay_by_slots}
use axon_go.Nova.{
  Error, block_issuer_commitment_input_missing, block_issuer_not_expired,
  block_issuer_expiry_too_early, mana_moved_off_block_issuer_account, mana_overflow,
  input_creation_after_tx_creation, input_output_mana_mismatch, block_issuance_credit_input_missing,
  account_locked, mana_failed, Params, past_bounded_slot_index,
}

-- The address of an address unlock condition: an account's, by its identifier, or another one.
pub data Address : Type 0 where
  account_address : ℕ → Address
  other_address : Address

-- What the functions read of an output.
pub record Output : Type 0 where
  pub base_token_amount : ℕ
  pub stored_mana : ℕ
  pub storage_score : ℕ
  pub address_condition : Option Address
  pub timelock_slot : Option ℕ

pub record Input : Type 0 where
  pub creation_slot : ℕ
  pub output : Output

pub record BlockIssuerFeature : Type 0 where
  pub expiry_slot : ℕ
  pub block_issuer_keys : List ℕ

-- The account output on the output side.
pub record NextAccount : Type 0 where
  pub account_id : ℕ
  pub mana : ℕ
  pub block_issuer : Option BlockIssuerFeature

pub record Allotment : Type 0 where
  pub account_id : ℕ
  pub mana : ℕ

-- The transaction and the working set. The commitment input is its slot.
pub record WorkingSet : Type 0 where
  pub tx_creation_slot : ℕ
  pub inputs : List Input
  pub outputs : List Output
  pub allotments : List Allotment
  pub rewards : List ℕ
  pub commitment : Option ℕ
  pub total_mana_in : ℕ
  pub total_mana_out : ℕ
  pub can_burn_mana : Bool

abbrev pub of_mana {ℓ} : {A : Type ℓ} → Result FixedPoint.Error A → Result Error A
of_mana panic = panic
of_mana (err e) = err (mana_failed e)
of_mana (ok a) = ok a

-- The error of the checked arithmetic is wrapped without an error of its own.
abbrev pub of_math : Option ℕ → Result Error ℕ
of_math none = err (mana_failed integer_overflow)
of_math (some n) = ok n

abbrev pub or_mana_overflow : Option ℕ → Result Error ℕ
or_mana_overflow none = err mana_overflow
or_mana_overflow (some n) = ok n

unfoldable pub get : List Allotment → ℕ → ℕ
get [] id = 0
get (a ∷ rest) id = let others = get rest id in if a.account_id == id then a.mana else others

abbrev pub has_timelock_until : Option ℕ → ℕ → Bool
has_timelock_until none slot = false
has_timelock_until (some timelock) slot = ltb slot timelock

abbrev pub is_account_address : Option Address → ℕ → Bool
is_account_address none account_id = false
is_account_address (some other_address) account_id = false
is_account_address (some (account_address id)) account_id = id == account_id

unfoldable pub has_manalock_condition : Output → ℕ → ℕ → Bool
has_manalock_condition o account_id slot =
    if not (has_timelock_until o.timelock_slot slot)
    then false
    else is_account_address o.address_condition account_id

-- What the transition of the feature asks of its expiry slot.
unfoldable pub expiry_slot_valid :
    ℕ → ℕ → Option BlockIssuerFeature → Option BlockIssuerFeature → Result Error (Unit {0})
expiry_slot_valid slot past_bounded_slot none none = ok tt
expiry_slot_valid slot past_bounded_slot none (some next) =
    reject_if (ltb next.expiry_slot past_bounded_slot) block_issuer_expiry_too_early
expiry_slot_valid slot past_bounded_slot (some current) none =
    reject_if (leb slot current.expiry_slot) block_issuer_not_expired
expiry_slot_valid slot past_bounded_slot (some current) (some next) =
    if leb slot current.expiry_slot
    then reject_if
        (not (next.expiry_slot == current.expiry_slot) && ltb next.expiry_slot past_bounded_slot)
        block_issuer_expiry_too_early
    else reject_if (ltb next.expiry_slot past_bounded_slot) block_issuer_expiry_too_early

unfoldable pub account_block_issuance_credit_locked :
    Option ℕ → (ℕ → Option ℤ) → Result Error (Unit {0})
account_block_issuance_credit_locked none bic_set = err block_issuance_credit_input_missing
account_block_issuance_credit_locked (some account_id) bic_set = elim (bic_set account_id) [
  | none ↦ err block_issuance_credit_input_missing
  | some bic ↦ reject_if (ltb_ℤ bic (pos 0)) account_locked
]

unfoldable pub stored_mana_at : ManaDecayProvider → Input → ℕ → Result Error ℕ
stored_mana_at p input slot =
    of_mana (decay_mana_by_slots p input.output.stored_mana input.creation_slot slot)

abbrev pub stored_manas : List Output → List ℕ
stored_manas [] = []
stored_manas (o ∷ os) = o.stored_mana ∷ stored_manas os

abbrev pub allotted_manas : List Allotment → List ℕ
allotted_manas [] = []
allotted_manas (a ∷ rest) = a.mana ∷ allotted_manas rest

abbrev pub has_feature : Option BlockIssuerFeature → Bool
has_feature none = false
has_feature (some f) = true

module _ (math : SafeMath) (p : ManaDecayProvider) (storage_cost : ℕ) where
  abbrev or_no_mana : Option ℕ → ℕ → ℕ → Result Error ℕ
  or_no_mana none creation_slot target_slot = ok 0
  or_no_mana (some excess) creation_slot target_slot =
      of_mana (generate_mana_and_decay_by_slots math p excess creation_slot target_slot)

  unfoldable pub potential_mana : Output → ℕ → ℕ → Result Error ℕ
  potential_mana output creation_slot target_slot = do
    min_deposit ← of_math (math.safe_mul 64 storage_cost output.storage_score)
    or_no_mana (math.safe_sub 64 output.base_token_amount min_deposit) creation_slot target_slot

  -- The loops of `TotalManaIn`, over the inputs and over the rewards.
  unfoldable pub total_mana_of_inputs : ℕ → List Input → ℕ → Result Error ℕ
  total_mana_of_inputs slot [] total_in = ok total_in
  total_mana_of_inputs slot (input ∷ inputs) total_in = do
    mana_stored ← stored_mana_at p input slot
    with_stored ← or_mana_overflow (math.safe_add 64 total_in mana_stored)
    mana_potential ← potential_mana input.output input.creation_slot slot
    with_potential ← or_mana_overflow (math.safe_add 64 with_stored mana_potential)
    total_mana_of_inputs slot inputs with_potential

  unfoldable pub total_mana_of : List ℕ → ℕ → Result Error ℕ
  total_mana_of [] total = ok total
  total_mana_of (mana ∷ manas) total = do
    with_mana ← or_mana_overflow (math.safe_add 64 total mana)
    total_mana_of manas with_mana

  unfoldable pub total_mana_in : ℕ → List Input → List ℕ → Result Error ℕ
  total_mana_in slot inputs rewards = do
    of_inputs ← total_mana_of_inputs slot inputs 0
    total_mana_of rewards of_inputs

  unfoldable pub total_mana_out : List Output → List Allotment → Result Error ℕ
  total_mana_out outputs allotments = do
    of_outputs ← total_mana_of (stored_manas outputs) 0
    total_mana_of (allotted_manas allotments) of_outputs

  -- The loop over the outputs that are locked to the account.
  unfoldable pub without_manalocked : ℕ → ℕ → List Output → ℕ → Result Error ℕ
  without_manalocked account_id slot [] mana_out = ok mana_out
  without_manalocked account_id slot (o ∷ os) mana_out =
      elim (has_manalock_condition o account_id slot) [
        | false ↦ without_manalocked account_id slot os mana_out
        | true ↦ do
          rest ← of_math (math.safe_sub 64 mana_out o.stored_mana)
          without_manalocked account_id slot os rest
      ]

  -- The second half of `accountBlockIssuerSTVF`: the account's Mana is not moved off it.
  unfoldable pub mana_not_moved :
      Params → WorkingSet → Input → NextAccount → ℕ → Result Error (Unit {0})
  mana_not_moved params ws input next past_bounded_slot = do
    stored ← stored_mana_at p input ws.tx_creation_slot
    in_without_stored ← of_math (math.safe_sub 64 ws.total_mana_in stored)
    potential ← potential_mana input.output input.creation_slot ws.tx_creation_slot
    mana_in ← of_math (math.safe_sub 64 in_without_stored potential)
    out_without_stored ← of_math (math.safe_sub 64 ws.total_mana_out next.mana)
    out_without_allotted ←
        of_math (math.safe_sub 64 out_without_stored (get ws.allotments next.account_id))
    mana_out ←
        without_manalocked next.account_id
          (u32 (past_bounded_slot + params.protocol_parameters.max_committable_age)) ws.outputs
          out_without_allotted
    reject_if (ltb mana_in mana_out) mana_moved_off_block_issuer_account

  abbrev commitment_slot : Option ℕ → Result Error ℕ
  commitment_slot none = err block_issuer_commitment_input_missing
  commitment_slot (some slot) = ok slot

  unfoldable pub account_block_issuer_stvf :
      Params
      → WorkingSet
      → Input
      → Option BlockIssuerFeature
      → NextAccount
      → Result Error (Unit {0})
  account_block_issuer_stvf params ws input current next =
      if not (has_feature current) && not (has_feature next.block_issuer) then ok tt else do
        slot ← commitment_slot ws.commitment
        expiry_slot_valid slot (past_bounded_slot_index params slot) current next.block_issuer
        mana_not_moved params ws input next (past_bounded_slot_index params slot)

-- `ExecFuncBalancedMana`: the loop over the inputs, and the comparison of the sums.
unfoldable pub inputs_created_before : ℕ → List Input → Result Error (Unit {0})
inputs_created_before slot [] = ok tt
inputs_created_before slot (input ∷ inputs) = do
  reject_if (ltb slot input.creation_slot) input_creation_after_tx_creation
  inputs_created_before slot inputs

unfoldable pub balanced_mana : WorkingSet → Result Error (Unit {0})
balanced_mana ws = do
  inputs_created_before ws.tx_creation_slot ws.inputs
  if ltb ws.total_mana_in ws.total_mana_out
      then err input_output_mana_mismatch
      else reject_if (ltb ws.total_mana_out ws.total_mana_in && not ws.can_burn_mana)
          input_output_mana_mismatch
