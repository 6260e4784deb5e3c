-- ===== src/Nova/Foundry/Serials.antt =====
-- vm/nova/vm.go: the foundry counter and the serial numbers of an account's new foundries.
use axon_go.Common.{
  ℕ, ◌+◌, ◌-◌, ◌^◌, ◌≤◌, ◌<◌, ◌==◌, ◌≡◌, ◌≢◌, refl, arith, Bool, true, false, not, List, [], ◌∷◌,
  length, if◌then◌else◌, Bool-cases, inl, inr,
}
use native.Mathlib.Decide.{ℕ_discrete}
use axon_go.Common.Result.{ok}
use axon_go.Nova.Foundry.{
  FoundryOutput, foundry_id, same_id, TxOutput, foundry, no_foundry, WorkingSet, has_foundry,
  seen_new_foundries, account_foundry_counter_stvf, serial_order_valid, foundry_serial_number_valid,
}
use axon_go.Nova.Foundry.Numbers.{
  numbers_after, Distinct, precedes, Ascending-length, Ascending-full, Bounded, Passing,
  Passing-Ascending,
}

-- The new foundries of an account, in the order of the outputs.
abbrev pub new_foundries : List (ℕ × ℕ × ℕ) → ℕ → List TxOutput → List FoundryOutput
new_foundries ins account_id [] = []
new_foundries ins account_id (no_foundry ∷ outs) = new_foundries ins account_id outs
new_foundries ins account_id (foundry f ∷ outs) =
    let rest = new_foundries ins account_id outs in
    if has_foundry ins (foundry_id f)
    then rest
    else if not (f.owner == account_id)
    then rest
    else f ∷ rest

abbrev pub serials : List FoundryOutput → List ℕ
serials [] = []
serials (f ∷ fs) = f.serial_number ∷ serials fs

-- The serial number check of each foundry of a list.
abbrev pub Checked : WorkingSet → ℕ → ℕ → List FoundryOutput → Type 0
Checked ws start end_inc [] = Unit {0}
Checked ws start end_inc (f ∷ fs) =
    (foundry_serial_number_valid ws f start end_inc ≡ ok tt) × Checked ws start end_inc fs

module _ (ins : List (ℕ × ℕ × ℕ)) where
  -- The loop of the code is the loop over the serial numbers of the account's new foundries.
  order-precedes :
      (f : FoundryOutput) (outs : List TxOutput)
      → serial_order_valid ins f outs ≡ ok tt
      → precedes f.serial_number (serials (new_foundries ins f.owner outs)) ≡ true
  unfolding serial_order_valid same_id foundry_id
  order-precedes f [] valid = refl
  order-precedes f (no_foundry ∷ outs) valid = order-precedes f outs valid
  order-precedes f (foundry g ∷ outs) valid = elim (Bool-cases (has_foundry ins (foundry_id g))) [
    | inl known ↦
        let skipped : serial_order_valid ins f outs ≡ ok tt = ground (arith, known) in
        ground (arith, known, order-precedes f outs skipped)
    | inr unknown ↦ elim (ℕ_discrete g.owner f.owner) [
      | no elsewhere ↦
          let skipped : serial_order_valid ins f outs ≡ ok tt =
            ground (arith, unknown, elsewhere) in
          ground (arith, unknown, elsewhere, order-precedes f outs skipped)
      | yes same ↦ elim (ℕ_discrete g.serial_number f.serial_number) [
        | yes itself ↦ ground (arith, unknown, same, itself)
        | no another ↦
            let passed : serial_order_valid ins f outs ≡ ok tt =
              ground (arith, unknown, same, another) in
            ground (arith, unknown, same, another, order-precedes f outs passed)
      ]
    ]
  ]

  seen-length :
      (account_id : ℕ) (outs : List TxOutput) (seen : ℕ)
      → seen + length outs < 2 ^ 32
      → seen_new_foundries ins account_id outs seen
        ≡ seen + length (serials (new_foundries ins account_id outs))
  unfolding seen_new_foundries
  seen-length account_id [] seen small = omega arith
  seen-length account_id (no_foundry ∷ outs) seen small =
      seen-length account_id outs seen (omega arith)
  seen-length account_id (foundry g ∷ outs) seen small =
      ground
        (arith, small, seen-length account_id outs seen, seen-length account_id outs (seen + 1))

abbrev Owned : ℕ → List FoundryOutput → Type 0
Owned account_id [] = Unit {0}
Owned account_id (f ∷ fs) = (f.owner ≡ account_id) × Owned account_id fs

step-Owned :
    (account_id : ℕ) (known elsewhere : Bool) (g : FoundryOutput) (fs : List FoundryOutput)
    → (elsewhere ≡ false → g.owner ≡ account_id)
    → Owned account_id fs
    → Owned account_id (if known then fs else if elsewhere then fs else g ∷ fs)
step-Owned account_id true elsewhere g fs own owned = owned
step-Owned account_id false true g fs own owned = owned
step-Owned account_id false false g fs own owned = (own refl, owned)

new_foundries-Owned :
    (ins : List (ℕ × ℕ × ℕ)) (account_id : ℕ) (outs : List TxOutput)
    → Owned account_id (new_foundries ins account_id outs)
new_foundries-Owned ins account_id [] = tt
new_foundries-Owned ins account_id (no_foundry ∷ outs) = new_foundries-Owned ins account_id outs
new_foundries-Owned ins account_id (foundry g ∷ outs) =
    step-Owned account_id (has_foundry ins (foundry_id g)) (not (g.owner == account_id)) g
      (new_foundries ins account_id outs) (λ here. ground arith)
      (new_foundries-Owned ins account_id outs)

module _ (ws : WorkingSet) (account_id start end_inc : ℕ) where
  checked-facts :
      (f : FoundryOutput)
      → f.owner ≡ account_id
      → foundry_serial_number_valid ws f start end_inc ≡ ok tt
      → (start < f.serial_number)
        × (f.serial_number ≤ end_inc)
        × (precedes f.serial_number (serials (new_foundries ws.in_foundries account_id ws.outputs))
            ≡ true)
  unfolding foundry_serial_number_valid
  checked-facts f own valid = (
    ground arith,
    ground arith,
    let order : serial_order_valid ws.in_foundries f ws.outputs ≡ ok tt = ground arith in
        rw (← own) (order-precedes ws.in_foundries f ws.outputs order),
  )

  Checked-Bounded :
      (fs : List FoundryOutput)
      → Owned account_id fs
      → Checked ws start end_inc fs
      → Bounded start end_inc (serials fs)
        × Passing (serials (new_foundries ws.in_foundries account_id ws.outputs)) (serials fs)
  Checked-Bounded [] owned checked = (tt, tt)
  Checked-Bounded (f ∷ fs) (own, owned) (valid, checked) =
      let (above, below, order) = checked-facts f own valid in
      let (b, p) = Checked-Bounded fs owned checked in ((above, below, b), (order, p))

  counter_le : account_foundry_counter_stvf ws account_id start end_inc ≡ ok tt → start ≤ end_inc
  unfolding account_foundry_counter_stvf
  counter_le valid = ground arith

  counter-length :
      length ws.outputs < 2 ^ 32
      → start < 2 ^ 32
      → end_inc < 2 ^ 32
      → start ≢ end_inc
      → account_foundry_counter_stvf ws account_id start end_inc ≡ ok tt
      → length (serials (new_foundries ws.in_foundries account_id ws.outputs)) ≡ end_inc - start
  unfolding account_foundry_counter_stvf
  counter-length small fits_start fits_end differ valid =
      ground (arith, differ, seen-length ws.in_foundries account_id ws.outputs 0 (omega arith))

-- New foundries are numbered without gaps: for an account whose foundry counter goes from `start` to
-- `end_inc` in an accepted transition, with every one of its new foundries accepted by the check of
-- its serial number and no two of them with the same number, the serial numbers of the new
-- foundries, in the order of the outputs, are all the numbers after `start` up to `end_inc`. The
-- counters and the number of outputs are those of a uint32.
pub new_foundries-serials :
    (ws : WorkingSet) (account_id start end_inc : ℕ)
    → length ws.outputs < 2 ^ 32
    → start < 2 ^ 32
    → end_inc < 2 ^ 32
    → Distinct (serials (new_foundries ws.in_foundries account_id ws.outputs))
    → Checked ws start end_inc (new_foundries ws.in_foundries account_id ws.outputs)
    → account_foundry_counter_stvf ws account_id start end_inc ≡ ok tt
    → serials (new_foundries ws.in_foundries account_id ws.outputs)
      ≡ numbers_after start (end_inc - start)
new_foundries-serials ws account_id start end_inc small fits_start fits_end distinct checked valid =
    let fs = new_foundries ws.in_foundries account_id ws.outputs in
    let (b, p) =
      Checked-Bounded ws account_id start end_inc fs
        (new_foundries-Owned ws.in_foundries account_id ws.outputs) checked in
    let ascending = Passing-Ascending start end_inc (serials fs) distinct b p in
    let few = Ascending-length start end_inc (serials fs) ascending in
    let all : length (serials fs) ≡ end_inc - start = elim (ℕ_discrete start end_inc) [
      | yes same ↦ omega arith
      | no differ ↦
          counter-length ws account_id start end_inc small fits_start fits_end differ valid
    ] in
    let up = counter_le ws account_id start end_inc valid in
    Ascending-full start end_inc (end_inc - start) (serials fs) (omega arith) ascending all
