-- ===== src/Vm/Backed/Sets.antt =====
-- vm/vm.go: the sets of unlocked addresses whose keys are all backed.
use axon_go.Common.{
  ℕ, ◌==◌, ◌≡◌, refl, arith, Bool, true, false, not, Option, none, some, List, ◌∷◌, Bool-cases,
  Option-cases, inl, inr, length, if◌then◌else◌,
}
use axon_go.Common.Result.{Result, ok, err, panic, ◌>>=◌, ◌>>◌, reject_if, >>=-eq-ok}
use axon_go.Merkle.{bytes_equal}
use axon_go.Merkle.Completeness.{bytes_equal_sound}
use axon_go.Address.{
  Address, ed25519_address, account_address, nft_address, anchor_address,
  implicit_account_creation_address, multi_address, restricted_address, is_direct_unlockable, key,
  Signature, matches_address, valid,
}
use axon_go.Vm.{
  Error, wrap, UnlockedAddressesSet, find_key, find_index, load, add_reference, add_unlocked,
  UnlockedAddress, directly_unlockable, unlocked_by_another,
}
use axon_go.Vm.Unlocking.{unlock, unlock_by_signature, referential_unlock_non_directly_unlockable}
use axon_go.Vm.Backed.{Context, Backed, by_signature}

pub wrap-eq-ok :
    {A : Type 0} (outer : Error) (call : Result Error A) {a : A}
    → wrap outer call ≡ ok a
    → call ≡ ok a
wrap-eq-ok outer (ok value) e = e
wrap-eq-ok outer (err inner) e = absurd (cc)
wrap-eq-ok outer panic e = absurd (cc)

pub reject_if-eq-ok :
    (fails : Bool) (e : Error) {r : Unit {0}} → reject_if fails e ≡ ok r → fails ≡ false
reject_if-eq-ok false e h = refl
reject_if-eq-ok true e h = absurd (cc)

pub ok-injective {ℓ} : {A : Type ℓ} {a b : A} → ◌≡◌ {A = Result Error A} (ok a) (ok b) → a ≡ b
ok-injective e = cc

-- All keys of the set are backed, and all signatures of the set are signatures of the message.
pub record IsSound (c : Context) (s : UnlockedAddressesSet) : Type 0 where
  pub keys :
      (k : List ℕ) (cell : ℕ) → find_key s.unlocked_addrs_by_addr_key k ≡ some cell → Backed c k
  pub signatures :
      (i cell : ℕ) (signature : Signature)
      → find_index s.signature_unlocked_addrs_by_index i ≡ some (cell, signature)
      → c.crypto.verify signature.public_key c.message signature.signature ≡ true

module _ (c : Context) where
  find_key-Backed :
      (known k : List ℕ) (cell found : ℕ) (entries : List (List ℕ × ℕ))
      → Backed c known
      → ((k' : List ℕ) (cell' : ℕ) → find_key entries k' ≡ some cell' → Backed c k')
      → find_key ((known, cell) ∷ entries) k ≡ some found
      → Backed c k
  unfolding find_key
  find_key-Backed known k cell found entries backed keys e =
      elim (Bool-cases (bytes_equal known k)) [
        | inl same ↦ rw (← bytes_equal_sound known k same) backed
        | inr other ↦ keys k found (ground (arith, other))
      ]

  pub add_unlocked-IsSound :
      (s : UnlockedAddressesSet) (a : Address) (i : ℕ)
      → IsSound c s
      → Backed c (key c.crypto a)
      → IsSound c (add_unlocked c.crypto s a i)
  unfolding add_unlocked
  add_unlocked-IsSound s a i v backed = record {
    keys = λ k cell e.
        find_key-Backed (key c.crypto a) k (length s.cells) cell s.unlocked_addrs_by_addr_key backed
          v.keys e;
    signatures = v.signatures;
  }

  pub add_reference-IsSound :
      (s : UnlockedAddressesSet) (cell i : ℕ) → IsSound c s → IsSound c (add_reference s cell i)
  unfolding add_reference
  add_reference-IsSound s cell i v = record { keys = v.keys; signatures = v.signatures }

  -- Sound sets stay sound, and the owner is backed.
  pub record Unlocked (s : UnlockedAddressesSet) (owner : Address) : Type 0 where
    pub sound : IsSound c s
    pub backed : Backed c (key c.crypto owner)

  pub unlock-verify :
      (owner : Address) (signature : Signature) {r : Unit {0}}
      → unlock c.crypto c.message owner signature ≡ ok r
      → (matches_address c.crypto signature owner ≡ true)
        × (c.crypto.verify signature.public_key c.message signature.signature ≡ true)
  unfolding unlock valid matches_address
  unlock-verify (ed25519_address a) signature e = ground arith
  unlock-verify (implicit_account_creation_address a) signature e = ground arith
  unlock-verify (account_address a) signature e = absurd (cc)
  unlock-verify (nft_address a) signature e = absurd (cc)
  unlock-verify (anchor_address a) signature e = absurd (cc)
  unlock-verify (multi_address addresses threshold) signature e = absurd (cc)
  unlock-verify (restricted_address underlying capabilities) signature e = absurd (cc)

  pub find_index-verify :
      (index i cell found : ℕ) (new signature : Signature) (entries : List (ℕ × ℕ × Signature))
      → c.crypto.verify new.public_key c.message new.signature ≡ true
      → ((i' cell' : ℕ) (signature' : Signature)
          → find_index entries i' ≡ some (cell', signature')
          → c.crypto.verify signature'.public_key c.message signature'.signature ≡ true)
      → find_index ((index, cell, new) ∷ entries) i ≡ some (found, signature)
      → c.crypto.verify signature.public_key c.message signature.signature ≡ true
  unfolding find_index
  find_index-verify index i cell found new signature entries verified all e =
      elim (Bool-cases (index == i)) [
        | inl same ↦ let p : new ≡ signature = ground (arith, same) in rw (← p) verified
        | inr other ↦ all i found signature (ground (arith, other))
      ]

  -- By the flag that leaves the set as it is.
  pub by_check :
      (check : Bool) (owner : Address) (s s' s'' : UnlockedAddressesSet)
      → IsSound c s
      → IsSound c s'
      → Backed c (key c.crypto owner)
      → (if check then s else s') ≡ s''
      → Unlocked s'' owner
  by_check true owner s s' s'' v v' backed e = rw (← e) (record { sound = v; backed = backed })
  by_check false owner s s' s'' v v' backed e = rw (← e) (record { sound = v'; backed = backed })

  pub unlock_by_signature-Unlocked :
      (s s' : UnlockedAddressesSet) (owner : Address) (signature : Option Signature) (i : ℕ)
      (check : Bool)
      → IsSound c s
      → unlock_by_signature c.crypto c.message s owner signature i check ≡ ok s'
      → Unlocked s' owner
  unfolding unlock_by_signature
  unlock_by_signature-Unlocked s s' owner none i check v e = absurd (cc)
  unlock_by_signature-Unlocked s s' owner (some signature) i check v e =
      let (_, unlocked, e1) = >>=-eq-ok (unlock c.crypto c.message owner signature) _ e in
      let (matches, verified) = unlock-verify owner signature unlocked in
      let backed : Backed c (key c.crypto owner) =
        by_signature owner signature refl matches verified in
      let added : IsSound c (add_unlocked c.crypto s owner i) =
        add_unlocked-IsSound s owner i v backed in
      by_check check owner s _ s' v
        (record {
          keys = added.keys;
          signatures = λ j cell known found.
              find_index-verify i j (length s.cells) cell signature known
                s.signature_unlocked_addrs_by_index verified v.signatures found;
        })
        backed (ok-injective e1)

  pub reference-Unlocked :
      (s s' : UnlockedAddressesSet) (owner : Address) (i referenced : ℕ) (check : Bool)
      → IsSound c s
      → referential_unlock_non_directly_unlockable c.crypto c.message s owner i referenced check
        ≡ ok s'
      → Unlocked s' owner
  unfolding referential_unlock_non_directly_unlockable
  reference-Unlocked s s' owner i referenced check v e =
      let (_, _, e1) = >>=-eq-ok (reject_if (is_direct_unlockable owner) directly_unlockable) _ e in
      elim (Option-cases (find_key s.unlocked_addrs_by_addr_key (key c.crypto owner))) [
        | inl absent ↦ absurd (ground arith)
        | inr (cell, found) ↦
            let e2 : (load s cell >>= λ (object : UnlockedAddress).
            (reject_if (not (object.unlocked_at_input_index == referenced)) unlocked_by_another
              >> ok (if check then s else add_reference s cell i)))
                ≡ ok s' =
              ground (arith, found) in
            let (object, _, e3) = >>=-eq-ok (load s cell) _ e2 in
            let (_, _, e4) =
              >>=-eq-ok
                (reject_if (not (object.unlocked_at_input_index == referenced)) unlocked_by_another)
                _ e3 in
            by_check check owner s _ s' v (add_reference-IsSound s cell i v) (v.keys _ cell found)
              (ok-injective e4)
      ]
