-- ===== src/Mana/Decay/Table.antt =====
-- mana_decay_provider.go: the decay against its lookup table, and its order.
use native.Mathlib.Nat.{div-add-mod', le-div_iff_mul-le, div-mul-le_self, one-le-pow}
use native.Mathlib.Decide.{ℕ_discrete}
use axon_go.Common.{
  ℕ, zero, suc, ◌-◌, ◌*◌, ◌/◌, ◌^◌, ◌≤◌, ◌<◌, ◌≡◌, refl, sym, ◌∙◌, arith, length, get_elem?, some,
  sub32,
}
use axon_go.Common.Result.{Result, ok}
use axon_go.Mana.FixedPoint.{Error}
use axon_go.Mana.Decay.{ManaDecayProvider, diffs_to_decay, decay_loop, decay}
use axon_go.Mana.Decay.Laws.{
  IsProvider, halves, scaled, length-eq, diffs_bounds, table_factor, scaled-le, round, loop_total,
  decay-loop, decay-zero, decay-none,
}

module _ {p : ManaDecayProvider} (valid : IsProvider p) where
  -- As much fuel as epochs is as good as more.
  loop_fuel :
      (f g r v : ℕ)
      → v < 2 ^ 64
      → r ≤ f
      → r ≤ g
      → r < 2 ^ 32
      → decay_loop p f r (halves v) ≡ decay_loop p g r (halves v)
  unfolding decay_loop
  loop_fuel zero zero zero v fits a b small = refl
  loop_fuel zero (suc g) zero v fits a b small = refl
  loop_fuel (suc f) zero zero v fits a b small = refl
  loop_fuel (suc f) (suc g) zero v fits a b small = refl
  loop_fuel zero g (suc r) v fits a b small = absurd (omega arith)
  loop_fuel (suc f) zero (suc r) v fits a b small = absurd (omega arith)
  loop_fuel (suc f) (suc g) (suc r) v fits a b small =
      let (factor, found) = table_factor valid (suc r) (omega arith) small in
      let less = scaled-le valid v _ factor found in
      let bounds = diffs_bounds valid (suc r) (omega arith) in
      round valid f r v factor fits small found
      ∙ loop_fuel f g (suc r - diffs_to_decay p (suc r)) (scaled p v factor) (omega arith)
          (omega arith) (omega arith) (omega arith)
      ∙ sym (round valid g r v factor fits small found)

  loop_none : (v : ℕ) → decay_loop p 0 0 (halves v) ≡ ok (halves v)
  unfolding decay_loop
  loop_none v = refl

  halves-injective :
      (v w : ℕ) → ◌≡◌ {A = Result Error (ℕ × ℕ)} (ok (halves v)) (ok (halves w)) → v ≡ w
  halves-injective v w same = ground (arith, div-add-mod' v (2 ^ 32), div-add-mod' w (2 ^ 32))

  -- The decay is what the loop comes to.
  decay_of_loop :
      (v n w : ℕ)
      → v < 2 ^ 64
      → w ≤ v
      → decay_loop p n n (halves v) ≡ ok (halves w)
      → decay p v n ≡ ok w
  decay_of_loop v n w fits le runs = elim (ℕ_discrete v 0) [
    | yes nothing ↦ rw (nothing, let e : w ≡ 0 = omega arith in e) (decay-zero valid n)
    | no v_pos ↦ elim (ℕ_discrete n 0) [
      | yes no_epoch ↦
          let same : v ≡ w = halves-injective v w (sym (loop_none v) ∙ (rw no_epoch at runs)) in
          rw (no_epoch, ← same) (decay-none valid v)
      | no n_pos ↦ decay-loop valid v n w fits le v_pos n_pos runs
    ]
  ]

  decay_round :
      (v r factor : ℕ)
      → v < 2 ^ 64
      → suc r < 2 ^ 32
      → get_elem? p.decay_factors (sub32 (diffs_to_decay p (suc r)) 1) ≡ some factor
      → decay p v (suc r) ≡ decay p (scaled p v factor) (suc r - diffs_to_decay p (suc r))
  decay_round v r factor fits small found =
      let less = scaled-le valid v _ factor found in
      let bounds = diffs_bounds valid (suc r) (omega arith) in
      let rest = suc r - diffs_to_decay p (suc r) in
      let (w, runs, le, _) =
        loop_total valid rest rest (scaled p v factor) (omega arith) (omega arith) (omega arith) in
      decay_of_loop v (suc r) w fits (omega arith) (
        round valid r r v factor fits small found
        ∙ loop_fuel r rest rest (scaled p v factor) (omega arith) (omega arith) (omega arith)
            (omega arith)
        ∙ runs)
      ∙ sym (decay_of_loop (scaled p v factor) rest w (omega arith) le runs)

  diffs_short : (n : ℕ) → n ≤ length p.decay_factors → diffs_to_decay p n ≡ n
  unfolding diffs_to_decay
  diffs_short n short = ground (arith, length-eq valid)

  diffs_long : (n : ℕ) → length p.decay_factors < n → diffs_to_decay p n ≡ length p.decay_factors
  unfolding diffs_to_decay
  diffs_long n long = ground (arith, length-eq valid)

-- The decay follows the lookup table. For a provider with a table of factors below one and an
-- exponent of the factors of at most 32 (IsProvider), a uint64 value and a decay over at least one
-- epoch and a uint32 of them: over as many epochs as the table is long, or fewer, it is one
-- multiplication by the factor of that number of epochs, rounded down; over more epochs, it is the
-- multiplication by the last factor of the table, and then the decay over the epochs that remain.
pub decay_table :
    {p : ManaDecayProvider} (v n factor : ℕ)
    → IsProvider p
    → v < 2 ^ 64
    → 0 < n
    → n < 2 ^ 32
    → (n ≤ length p.decay_factors
        → get_elem? p.decay_factors (n - 1) ≡ some factor
        → decay p v n ≡ ok (v * factor / 2 ^ p.decay_factors_exponent))
      × (length p.decay_factors < n
          → get_elem? p.decay_factors (length p.decay_factors - 1) ≡ some factor
          → decay p v n
            ≡ decay p (v * factor / 2 ^ p.decay_factors_exponent) (n - length p.decay_factors))
decay_table v zero factor valid fits n_pos small = absurd (omega arith)
decay_table {p = p} v (suc r) factor valid fits n_pos small = (
  λ short found.
      let whole = diffs_short valid (suc r) short in
      let index : sub32 (diffs_to_decay p (suc r)) 1 ≡ suc r - 1 = omega (arith, whole, small) in
      let last : suc r - diffs_to_decay p (suc r) ≡ 0 = omega (arith, whole) in
      decay_round valid v r factor fits small (rw index found) ∙ rw last (decay-none valid _),
  λ long found.
      let whole = diffs_long valid (suc r) long in
      let index : sub32 (diffs_to_decay p (suc r)) 1 ≡ length p.decay_factors - 1 =
        omega (arith, whole, valid.length_fits, valid.not_empty) in
      decay_round valid v r factor fits small (rw index found) ∙ rw whole refl,
)

module _ {p : ManaDecayProvider} (valid : IsProvider p) where
  scaled_mono : (v w factor : ℕ) → v ≤ w → scaled p v factor ≤ scaled p w factor
  scaled_mono v w factor le =
      let e = 2 ^ p.decay_factors_exponent in
      let below : scaled p v factor * e ≤ v * factor = div-mul-le_self (v * factor) e in
      let grows : v * factor ≤ w * factor = grind arith in
      (le-div_iff_mul-le (one-le-pow p.decay_factors_exponent 2 (omega arith))).1 (omega arith)

  loop_mono :
      (fuel r v w : ℕ)
      → w < 2 ^ 64
      → v ≤ w
      → r ≤ fuel
      → r < 2 ^ 32
      → (v' w' : ℕ) × (decay_loop p fuel r (halves v) ≡ ok (halves v'))
        × (decay_loop p fuel r (halves w) ≡ ok (halves w'))
        × (v' ≤ w')
        × (v' ≤ v)
        × (w' ≤ w)
  unfolding decay_loop
  loop_mono zero zero v w fits le enough small = (v, w, refl, refl, le, omega arith, omega arith)
  loop_mono (suc fuel) zero v w fits le enough small =
      (v, w, refl, refl, le, omega arith, omega arith)
  loop_mono zero (suc r) v w fits le enough small = absurd (omega arith)
  loop_mono (suc fuel) (suc r) v w fits le enough small =
      let (factor, found) = table_factor valid (suc r) (omega arith) small in
      let less_v = scaled-le valid v _ factor found in
      let less_w = scaled-le valid w _ factor found in
      let bounds = diffs_bounds valid (suc r) (omega arith) in
      let (v', w', runs_v, runs_w, le', le_v, le_w) =
        loop_mono fuel (suc r - diffs_to_decay p (suc r)) (scaled p v factor) (scaled p w factor)
          (omega arith) (scaled_mono v w factor le) (omega arith) (omega arith) in
      (
        v',
        w',
        round valid fuel r v factor (omega arith) small found ∙ runs_v,
        round valid fuel r w factor fits small found ∙ runs_w,
        le',
        omega arith,
        omega arith,
      )

-- Decay keeps the order of values: for a provider with a table of factors below one and an exponent
-- of the factors of at most 32 (IsProvider), of two uint64 values that decay over the same number of
-- epochs, a uint32, the smaller one does not come out larger.
pub decay_mono :
    {p : ManaDecayProvider} (v w n : ℕ)
    → IsProvider p
    → w < 2 ^ 64
    → v ≤ w
    → n < 2 ^ 32
    → (v' w' : ℕ) × (decay p v n ≡ ok v') × (decay p w n ≡ ok w') × (v' ≤ w')
decay_mono v w n valid fits le small =
    let (v', w', runs_v, runs_w, le', le_v, le_w) =
      loop_mono valid n n v w fits le (omega arith) small in
    (
      v',
      w',
      decay_of_loop valid v n v' (omega arith) le_v runs_v,
      decay_of_loop valid w n w' fits le_w runs_w,
      le',
    )
