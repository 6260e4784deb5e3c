-- ===== src/Nova/BlockIssuer/Locked.antt =====
-- vm/nova/vm.go and vm/vm.go: the Mana of an account with a block issuer feature stays on it, and the
-- Mana of a transaction is what its parts add up to.
use native.Mathlib.Decide.{dec_le}
use axon_go.Common.{
  ℕ, ◌+◌, ◌^◌, ◌≤◌, ◌<◌, ◌≡◌, ◌⊎◌, inl, inr, arith, true, false, Option, none, some, List, [], ◌∷◌,
  u32, Option-cases, Bool-cases,
}
use axon_go.Common.Result.{ok, ◌>>=◌, >>=-eq-ok}
use axon_go.SafeMath.{SafeMath}
use axon_go.Mana.Decay.{ManaDecayProvider}
use axon_go.Nova.{Params, past_bounded_slot_index}
use axon_go.Nova.BlockIssuer.{
  Output, Input, BlockIssuerFeature, NextAccount, WorkingSet, of_math, get, has_manalock_condition,
  expiry_slot_valid, potential_mana, stored_mana_at, total_mana_in, total_mana_out, stored_manas,
  allotted_manas, without_manalocked, mana_not_moved, has_feature, account_block_issuer_stvf,
}
use axon_go.Nova.BlockIssuer.Balance.{sum, IsManaOf, totals-IsManaOf}

-- The stored Mana of the outputs that are locked to an account at a slot.
abbrev pub manalocked : ℕ → ℕ → List Output → ℕ
manalocked account_id slot [] = 0
manalocked account_id slot (o ∷ os) =
    let rest = manalocked account_id slot os in
    elim (has_manalock_condition o account_id slot) [ false ↦ rest | true ↦ o.stored_mana + rest ]

module _ (math : SafeMath) where
  -- What a subtraction that does not fail comes to.
  sub-facts : (a b c : ℕ) → of_math (math.safe_sub 64 a b) ≡ ok c → b + c ≡ a
  sub-facts a b c e = elim (dec_le b a) [
    | yes le ↦ let fits = math.safe_sub_fits 64 a b le in ground (arith, fits, le)
    | no more ↦
        let under = math.safe_sub_underflow 64 a b (omega arith) in absurd (ground (arith, under))
  ]

  without_manalocked-facts :
      (p : ManaDecayProvider) (storage_cost account_id slot : ℕ) (os : List Output) (m r : ℕ)
      → without_manalocked math p storage_cost account_id slot os m ≡ ok r
      → manalocked account_id slot os + r ≡ m
  unfolding without_manalocked
  without_manalocked-facts p storage_cost account_id slot [] m r e = ground arith
  without_manalocked-facts p storage_cost account_id slot (o ∷ os) m r e =
      elim (Bool-cases (has_manalock_condition o account_id slot)) [
        | inr free ↦
            let rest : without_manalocked math p storage_cost account_id slot os m ≡ ok r =
              ground (arith, free) in
            ground
              (arith, free, without_manalocked-facts p storage_cost account_id slot os m r rest)
        | inl locked ↦
            let chain : (of_math (math.safe_sub 64 m o.stored_mana) >>= λ k.
            without_manalocked math p storage_cost account_id slot os k)
                ≡ ok r =
              ground (arith, locked) in
            let (k, first, rest) = >>=-eq-ok (of_math (math.safe_sub 64 m o.stored_mana)) _ chain in
            ground (
              arith,
              locked,
              sub-facts m o.stored_mana k first,
              without_manalocked-facts p storage_cost account_id slot os k r rest,
            )
      ]

-- What an accepted transition makes of a block issuer's Mana: `stored` and `potential` are the input
-- account's own Mana, `mana_of_inputs` is the Mana of all inputs.
pub record IsLocked (math : SafeMath) (p : ManaDecayProvider) (storage_cost : ℕ) (params : Params)
    (ws : WorkingSet) (input : Input) (next : NextAccount) (slot : ℕ) : Type 0 where
  pub stored : ℕ
  pub potential : ℕ
  pub mana_of_inputs : ℕ
  pub stored_runs : stored_mana_at p input ws.tx_creation_slot ≡ ok stored
  pub potential_runs :
      potential_mana math p storage_cost input.output input.creation_slot ws.tx_creation_slot
      ≡ ok potential
  pub inputs_run : IsManaOf math p storage_cost ws.tx_creation_slot ws.inputs mana_of_inputs
  pub kept :
      sum (stored_manas ws.outputs) + sum (allotted_manas ws.allotments) + (stored + potential)
      ≤ mana_of_inputs
        + sum ws.rewards
        + (next.mana
            + get ws.allotments next.account_id
            + manalocked next.account_id
                (u32 (slot + params.protocol_parameters.max_committable_age))
                ws.outputs)

-- The account after a transition has a feature that is not expired at a slot, or it has none, and
-- then the one it had before is expired.
abbrev pub IsUnexpired : ℕ → Option BlockIssuerFeature → Option BlockIssuerFeature → Type 0
IsUnexpired slot current (some next) = slot ≤ next.expiry_slot
IsUnexpired slot (some current) none = current.expiry_slot < slot
IsUnexpired slot none none = Unit

expiry_slot_valid-IsUnexpired :
    (slot past : ℕ) (current next : Option BlockIssuerFeature)
    → slot ≤ past
    → expiry_slot_valid slot past current next ≡ ok tt
    → IsUnexpired slot current next
unfolding expiry_slot_valid
expiry_slot_valid-IsUnexpired slot past none none order accepted = tt
expiry_slot_valid-IsUnexpired slot past none (some n) order accepted = ground arith
expiry_slot_valid-IsUnexpired slot past (some c) none order accepted = ground arith
expiry_slot_valid-IsUnexpired slot past (some c) (some n) order accepted = ground arith

past_bounded_slot_after :
    (params : Params) (slot : ℕ)
    → slot + params.protocol_parameters.max_committable_age < 2 ^ 32
    → slot ≤ past_bounded_slot_index params slot
unfolding past_bounded_slot_index
past_bounded_slot_after params slot fits = omega arith

mana_not_moved-IsLocked :
    (math : SafeMath) (p : ManaDecayProvider) (storage_cost : ℕ) (params : Params) (ws : WorkingSet)
    (input : Input) (next : NextAccount) (slot : ℕ)
    → total_mana_in math p storage_cost ws.tx_creation_slot ws.inputs ws.rewards
      ≡ ok ws.total_mana_in
    → total_mana_out math p storage_cost ws.outputs ws.allotments ≡ ok ws.total_mana_out
    → mana_not_moved math p storage_cost params ws input next slot ≡ ok tt
    → IsLocked math p storage_cost params ws input next slot
unfolding mana_not_moved
mana_not_moved-IsLocked math p storage_cost params ws input next slot in_runs out_runs accepted =
    let (stored, stored_runs, e1) =
      >>=-eq-ok (stored_mana_at p input ws.tx_creation_slot) _ accepted in
    let (m1, f1, e2) = >>=-eq-ok (of_math (math.safe_sub 64 ws.total_mana_in stored)) _ e1 in
    let (potential, potential_runs, e3) =
      >>=-eq-ok
        (potential_mana math p storage_cost input.output input.creation_slot ws.tx_creation_slot) _
        e2 in
    let (m2, f2, e4) = >>=-eq-ok (of_math (math.safe_sub 64 m1 potential)) _ e3 in
    let (m3, f3, e5) = >>=-eq-ok (of_math (math.safe_sub 64 ws.total_mana_out next.mana)) _ e4 in
    let (m4, f4, e6) =
      >>=-eq-ok (of_math (math.safe_sub 64 m3 (get ws.allotments next.account_id))) _ e5 in
    let (m5, f5, e7) =
      >>=-eq-ok
        (without_manalocked math p storage_cost next.account_id
          (u32 (slot + params.protocol_parameters.max_committable_age)) ws.outputs m4)
        _ e6 in
    let enough : m5 ≤ m2 = ground arith in
    let (n, inputs_run, in_sum, out_sum) =
      totals-IsManaOf math p storage_cost ws in_runs out_runs in
    record {
      stored = stored;
      potential = potential;
      mana_of_inputs = n;
      stored_runs = stored_runs;
      potential_runs = potential_runs;
      inputs_run = inputs_run;
      kept = omega (
        arith,
        in_sum,
        out_sum,
        sub-facts math ws.total_mana_in stored m1 f1,
        sub-facts math m1 potential m2 f2,
        sub-facts math ws.total_mana_out next.mana m3 f3,
        sub-facts math m3 (get ws.allotments next.account_id) m4 f4,
        without_manalocked-facts math p storage_cost next.account_id
            (u32 (slot + params.protocol_parameters.max_committable_age)) ws.outputs m4 m5 f5,
      );
    }

-- A block issuer cannot move Mana off its account: where an accepted transition has a block issuer
-- feature on the input or on the output side of the account, and the totals of the working set are
-- the ones that the code computes, there is a commitment input, and the stored Mana of the outputs
-- and the allotments, less what stays on the account, goes to it by its allotment or is locked to
-- it, is at most the decayed stored Mana and the potential Mana of the inputs and the claimed
-- rewards, less the account's own decayed stored and potential Mana. An output counts as locked to
-- the account at the slot that is the maximum committable age after the slot that bounds the
-- current one from the past, as a uint32. A feature that the account has afterwards is not expired
-- at the commitment's slot, and one that it loses is expired at that slot. The commitment's slot
-- and the maximum committable age add up to less than 2 ^ 32.
pub account_block_issuer_stvf-IsLocked :
    (math : SafeMath) (p : ManaDecayProvider) (storage_cost : ℕ) (params : Params) (ws : WorkingSet)
    (input : Input) (current : Option BlockIssuerFeature) (next : NextAccount)
    → total_mana_in math p storage_cost ws.tx_creation_slot ws.inputs ws.rewards
      ≡ ok ws.total_mana_in
    → total_mana_out math p storage_cost ws.outputs ws.allotments ≡ ok ws.total_mana_out
    → ((slot : ℕ)
        → ws.commitment ≡ some slot
        → slot + params.protocol_parameters.max_committable_age < 2 ^ 32)
    → (has_feature current ≡ true) ⊎ (has_feature next.block_issuer ≡ true)
    → account_block_issuer_stvf math p storage_cost params ws input current next ≡ ok tt
    → (slot : ℕ) × (ws.commitment ≡ some slot)
      × IsUnexpired slot current next.block_issuer
      × IsLocked math p storage_cost params ws input next (past_bounded_slot_index params slot)
unfolding account_block_issuer_stvf
account_block_issuer_stvf-IsLocked math p storage_cost params ws input current next in_runs out_runs
      fits has accepted =
    elim (Option-cases ws.commitment) [
      | inl missing ↦ absurd (ground (arith, missing, has))
      | inr (slot, found) ↦
          let expiry : expiry_slot_valid slot (past_bounded_slot_index params slot) current
                next.block_issuer
              ≡ ok tt =
            ground (arith, found, has) in
          let moved : mana_not_moved math p storage_cost params ws input next
                (past_bounded_slot_index params slot)
              ≡ ok tt =
            ground (arith, found, has) in
          (
            slot,
            found,
            expiry_slot_valid-IsUnexpired slot (past_bounded_slot_index params slot) current
                next.block_issuer (past_bounded_slot_after params slot (fits slot found)) expiry,
            mana_not_moved-IsLocked math p storage_cost params ws input next
                (past_bounded_slot_index params slot) in_runs out_runs moved,
          )
    ]
