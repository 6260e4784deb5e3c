-- ===== src/Syntax/Sets.antt =====
-- unlock_cond.go, feat.go: a slice whose types ascend is turned into a set without an error, and the set
-- has each element of the slice under its type.
use Prim.Native.Nat.{compare}
use mathlib.Core.List.{Memᴰ}
use mathlib.Core.List.Memᴰ.{head, tail, not-nil}
use axon_go.Common.{
  ℕ, ◌<◌, ◌≡◌, refl, ◌∙◌, arith, Option, none, some, List, [], ◌∷◌, ◌⊎◌, inl, inr, Option-cases,
}
use axon_go.Common.Result.{ok, >>=-eq-ok}
use axon_go.Syntax.{slice_validator, lexical_order_and_uniqueness_validator, after}
use axon_go.Syntax.Parts.{get, add_to_set, must_set}
use axon_go.Syntax.Checks.{ascending}

module _ {ℓ} {A : Type ℓ} (type_of : A → ℕ) where
  -- Each type is above the one before.
  unfoldable pub Above : ℕ → List A → Type 0
  Above type [] = Unit {0}
  Above type (a ∷ slice) = (type < type_of a) × Above (type_of a) slice

  get_other :
      (a : A) (set : List A) (type : ℕ)
      → type_of a < type
      → get type_of (a ∷ set) type ≡ get type_of set type
  unfolding get
  get_other a set type h = ground arith

  get_same : (a : A) (set : List A) → get type_of (a ∷ set) (type_of a) ≡ some a
  unfolding get
  get_same a set = ground arith

  -- A set that has nothing above a type takes all of a slice that ascends from there.
  add_to_set-Above :
      (slice set : List A) (type : ℕ)
      → Above type slice
      → ((t : ℕ) → type < t → get type_of set t ≡ none)
      → (made : List A) × (add_to_set type_of slice set ≡ some made)
  unfolding add_to_set Above
  add_to_set-Above [] set type h free = (set, refl)
  add_to_set-Above (a ∷ slice) set type (above, h) free =
      let (made, e) =
        add_to_set-Above slice (a ∷ set) (type_of a) h
          (λ t lt. get_other a set t lt ∙ free t (omega arith)) in
      (made, ground (arith, free (type_of a) above, e))

  after-eq-ok :
      (x y : ℕ) (a : A) {next : Option A}
      → after (compare x y) a ≡ ok next
      → (x < y) × (next ≡ some a)
  after-eq-ok x y a h = ground (arith, h)

  -- The validator's loop, after an element.
  slice_validator-Above :
      (slice : List A) (prev : A) {last : Option A}
      → slice_validator
          (lexical_order_and_uniqueness_validator (λ (a b : A). compare (type_of a) (type_of b)))
          slice
          (some prev)
        ≡ ok last
      → Above (type_of prev) slice
  unfolding slice_validator lexical_order_and_uniqueness_validator Above
  slice_validator-Above [] prev h = tt
  slice_validator-Above (a ∷ slice) prev {last} h =
      let (next, e, rest) =
        >>=-eq-ok
          (lexical_order_and_uniqueness_validator (λ (a b : A). compare (type_of a) (type_of b)) a
            (some prev))
          _ h in
      let (lt, e') = after-eq-ok (type_of prev) (type_of a) a e in
      let rest' : slice_validator
            (lexical_order_and_uniqueness_validator (λ (a b : A). compare (type_of a) (type_of b)))
            slice (some a)
          ≡ ok last =
        rw (← e') rest in
      (lt, slice_validator-Above slice a rest')

  pub ascending-must_set :
      {E : Type 0} (slice : List A)
      → ascending type_of slice ≡ ok tt
      → (set : List A) × (must_set type_of {E = E} slice ≡ ok set)
  unfolding ascending must_set add_to_set slice_validator lexical_order_and_uniqueness_validator get
  ascending-must_set [] h = ([], refl)
  ascending-must_set (a ∷ slice) h =
      let (last, loop, _) =
        >>=-eq-ok
          (slice_validator
            (lexical_order_and_uniqueness_validator (λ (a b : A). compare (type_of a) (type_of b)))
            slice (some a))
          (λ last. ok tt) h in
      let (made, e) =
        add_to_set-Above slice (a ∷ []) (type_of a) (slice_validator-Above slice a loop)
          (λ t lt. get_other a [] t lt) in
      (made, rw e refl)

  kept_by :
      (b : A) (set : List A) (a : A) (slice : List A)
      → get type_of set (type_of b) ≡ none
      → get type_of set (type_of a) ≡ some a ⊎ Memᴰ a (b ∷ slice)
      → get type_of (b ∷ set) (type_of a) ≡ some a ⊎ Memᴰ a slice
  unfolding get
  kept_by b set a slice free (inl known) = inl (ground (arith, free, known))
  kept_by b set a slice free (inr (head e)) = inl (rw e (get_same b set))
  kept_by b set a slice free (inr (tail m)) = inr m

  -- A set has what it had, and each element of the slice that it is made from.
  get-kept :
      (slice set : List A) (a : A) {made : List A}
      → add_to_set type_of slice set ≡ some made
      → get type_of set (type_of a) ≡ some a ⊎ Memᴰ a slice
      → get type_of made (type_of a) ≡ some a
  unfolding add_to_set
  get-kept [] set a h (inl known) = ground (arith, h, known)
  get-kept [] set a h (inr m) = absurd (not-nil m)
  get-kept (b ∷ slice) set a {made} h before = elim (Option-cases (get type_of set (type_of b))) [
    | inr (c, e) ↦ absurd (ground (arith, h, e))
    | inl e ↦
        let h' : add_to_set type_of slice (b ∷ set) ≡ some made = ground (arith, e, h) in
        get-kept slice (b ∷ set) a h' (kept_by b set a slice e before)
  ]

  pub must_set-get :
      {E : Type 0} (slice : List A) (a : A) {set : List A}
      → must_set type_of {E = E} slice ≡ ok set
      → Memᴰ a slice
      → get type_of set (type_of a) ≡ some a
  unfolding must_set
  must_set-get slice a {set} h m = elim (Option-cases (add_to_set type_of slice [])) [
    | inl e ↦ absurd (ground (arith, h, e))
    | inr (made, e) ↦
        let same : made ≡ set = ground (arith, h, e) in rw (← same) (get-kept slice [] a e (inr m))
  ]
