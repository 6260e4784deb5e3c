-- ===== src/TokenScheme/Supply.antt =====
-- token_scheme_simple.go: the counters account for the tokens that exist.
use axon_go.Common.{true, ◌+◌, ◌≡◌, ap, ◌↔◌, ◌⊎◌, inl, inr, arith}
use axon_go.Common.Int.{
  ℤ, pos, pos_part, neg_part, ◌+ℤ◌, ◌-ℤ◌, ◌≤ℤ◌, eqb_ℤ, -ℤ_parts, eq_of_parts, int_laws,
}
use axon_go.Common.Result.{ok}
use axon_go.TokenScheme.{
  SimpleTokenScheme, simple, genesis_valid, destruction_valid, balance_valid, state_change_valid,
}

-- What a transition of the counters is: at most one of them grows, and their growth accounts for the
-- tokens that the transaction adds or takes away.
pub record IsBalanced (s next : SimpleTokenScheme) (in_ out_ : ℤ) : Type 0 where
  pub same_maximum : s.maximum_supply ≡ next.maximum_supply
  pub minted_grows : s.minted_tokens ≤ℤ next.minted_tokens
  pub melted_grows : s.melted_tokens ≤ℤ next.melted_tokens
  pub one_only : (s.minted_tokens ≡ next.minted_tokens) ⊎ (s.melted_tokens ≡ next.melted_tokens)
  pub accounted :
      next.minted_tokens +ℤ s.melted_tokens +ℤ in_ ≡ s.minted_tokens +ℤ next.melted_tokens +ℤ out_

parts_of_eq : {a b : ℤ} → a ≡ b → (pos_part a ≡ pos_part b) × (neg_part a ≡ neg_part b)
parts_of_eq e = (ap pos_part e, ap neg_part e)

pub eqb_ℤ-sound : (a b : ℤ) → eqb_ℤ a b ≡ true → a ≡ b
eqb_ℤ-sound a b h = eq_of_parts a b (ground arith)

module _ (s next : SimpleTokenScheme) (d : ℤ) (minted_grows : s.minted_tokens ≤ℤ next.minted_tokens)
    (melted_grows : s.melted_tokens ≤ℤ next.melted_tokens) where
  -- In terms of the parts of the integers.
  abbrev Sums : Type 0
  Sums =
      pos_part next.minted_tokens
        + neg_part s.minted_tokens
        + pos_part s.melted_tokens
        + neg_part next.melted_tokens
        + neg_part d
      ≡ neg_part next.minted_tokens
        + pos_part s.minted_tokens
        + neg_part s.melted_tokens
        + pos_part next.melted_tokens
        + pos_part d

  abbrev Accounts : Type 0
  Accounts =
      Sums × ((s.minted_tokens ≡ next.minted_tokens) ⊎ (s.melted_tokens ≡ next.melted_tokens))

  balance_valid-sums : balance_valid s next d ≡ ok tt → Sums
  unfolding balance_valid
  balance_valid-sums h = ground (
    arith,
    -ℤ_parts next.minted_tokens s.minted_tokens,
    -ℤ_parts next.melted_tokens s.melted_tokens,
    -ℤ_parts (pos 0) d,
  )

  balance_valid-one :
      balance_valid s next d ≡ ok tt
      → (eqb_ℤ s.minted_tokens next.minted_tokens ≡ true)
        ⊎ (eqb_ℤ s.melted_tokens next.melted_tokens ≡ true)
  unfolding balance_valid
  balance_valid-one h = ground arith

  balance_valid-Accounts : balance_valid s next d ≡ ok tt → Accounts
  balance_valid-Accounts h = (
    balance_valid-sums h,
    elim (balance_valid-one h) [
      | inl e ↦ inl (eqb_ℤ-sound s.minted_tokens next.minted_tokens e)
      | inr e ↦ inr (eqb_ℤ-sound s.melted_tokens next.melted_tokens e)
    ],
  )

  Accounts-balance_valid : Accounts → balance_valid s next d ≡ ok tt
  unfolding balance_valid
  Accounts-balance_valid (sums, one) = ground (
    arith,
    minted_grows,
    melted_grows,
    sums,
    one,
    -ℤ_parts next.minted_tokens s.minted_tokens,
    -ℤ_parts next.melted_tokens s.melted_tokens,
    -ℤ_parts (pos 0) d,
  )

-- The guards of a state change, in front of the balance.
state_change-guards :
    (s next : SimpleTokenScheme) (in_ out_ : ℤ)
    → state_change_valid s (simple next) in_ out_ ≡ ok tt
    → (s.maximum_supply ≡ next.maximum_supply)
      × (s.minted_tokens ≤ℤ next.minted_tokens)
      × (s.melted_tokens ≤ℤ next.melted_tokens)
      × (balance_valid s next (out_ -ℤ in_) ≡ ok tt)
unfolding state_change_valid
state_change-guards s next in_ out_ h =
    (eq_of_parts _ _ (ground arith), ground arith, ground arith, ground arith)

-- A state change of the simple token scheme is accepted exactly when the maximum supply stays, no
-- counter falls, at most one of them grows, and the tokens that are minted, less those that are
-- melted, are the tokens of the outputs less those of the inputs.
pub state_change_valid_iff :
    (s next : SimpleTokenScheme) (in_ out_ : ℤ)
    → (state_change_valid s (simple next) in_ out_ ≡ ok tt) ↔ IsBalanced s next in_ out_
unfolding state_change_valid
state_change_valid_iff s next in_ out_ = (
  λ h.
      let (maximum, minted, melted, balance) = state_change-guards s next in_ out_ h in
      let (sums, one) = balance_valid-Accounts s next (out_ -ℤ in_) minted melted balance in
      record {
        same_maximum = maximum;
        minted_grows = minted;
        melted_grows = melted;
        one_only = one;
        accounted = omega (int_laws, sums);
      },
  λ b.
      let sums : Sums s next (out_ -ℤ in_) b.minted_grows b.melted_grows =
        omega (int_laws, parts_of_eq b.accounted) in
      let balance =
        Accounts-balance_valid s next (out_ -ℤ in_) b.minted_grows b.melted_grows
          (sums, b.one_only) in
      ground (arith, b.same_maximum, b.minted_grows, b.melted_grows, balance),
)

-- The counters of a foundry and the tokens that exist, after its creation and any number of state
-- changes; each change adds the tokens of its outputs and takes away those of its inputs.
pub data History : SimpleTokenScheme → ℤ → Type 0 where
  created : (s : SimpleTokenScheme) (out_ : ℤ) → genesis_valid s out_ ≡ ok tt → History s out_
  changed :
      {s : SimpleTokenScheme} {c : ℤ}
      → History s c
      → (next : SimpleTokenScheme) (in_ out_ : ℤ)
      → state_change_valid s (simple next) in_ out_ ≡ ok tt
      → History next (c +ℤ (out_ -ℤ in_))

pub genesis-facts :
    (s : SimpleTokenScheme) (out_ : ℤ)
    → genesis_valid s out_ ≡ ok tt
    → (eqb_ℤ s.melted_tokens (pos 0) ≡ true) × (eqb_ℤ out_ s.minted_tokens ≡ true)
unfolding genesis_valid
genesis-facts s out_ h = (ground arith, ground arith)

-- The counters account for the tokens: for a foundry that is created and changed by accepted
-- transitions, the tokens that exist are the minted tokens less the melted tokens, and the melted
-- tokens are not negative.
pub History-supply :
    {s : SimpleTokenScheme} {c : ℤ}
    → History s c
    → (c +ℤ s.melted_tokens ≡ s.minted_tokens) × (pos 0 ≤ℤ s.melted_tokens)
History-supply (created s out_ h) =
    let (melted, minted) = genesis-facts s out_ h in
    let e = eqb_ℤ-sound s.melted_tokens (pos 0) melted in
    let f = eqb_ℤ-sound out_ s.minted_tokens minted in
    (omega (int_laws, parts_of_eq e, parts_of_eq f), omega (arith, parts_of_eq e))
History-supply (changed {s = s} {c = c} before next in_ out_ h) =
    let (supply, melted) = History-supply before in
    let b = (state_change_valid_iff s next in_ out_).0 h in
    (
      omega (int_laws, parts_of_eq supply, parts_of_eq b.accounted),
      omega (arith, melted, b.melted_grows),
    )

-- A foundry's destruction is accepted exactly when no token remains: for counters after any accepted
-- history with `c` tokens, it is valid for the sums of a transaction exactly when these take the
-- tokens to zero.
pub destruction_valid_iff :
    {s : SimpleTokenScheme} {c : ℤ} (out_ in_ : ℤ)
    → History s c
    → (destruction_valid s out_ in_ ≡ ok tt) ↔ (c +ℤ (out_ -ℤ in_) ≡ pos 0)
unfolding destruction_valid
destruction_valid_iff {s = s} {c = c} out_ in_ history =
    let (supply, _) = History-supply history in
    (
      λ h.
          let e : eqb_ℤ (s.minted_tokens +ℤ (out_ -ℤ in_)) s.melted_tokens ≡ true = ground arith in
          let f = eqb_ℤ-sound (s.minted_tokens +ℤ (out_ -ℤ in_)) s.melted_tokens e in
          omega (int_laws, parts_of_eq supply, parts_of_eq f),
      λ h.
          let e : s.minted_tokens +ℤ (out_ -ℤ in_) ≡ s.melted_tokens =
            omega (int_laws, parts_of_eq supply, parts_of_eq h) in
          rw e (ground arith),
    )
