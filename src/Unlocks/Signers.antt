-- ===== src/Unlocks/Signers.antt =====
-- unlock.go: the signers of validated unlocks.
use axon_go.Common.{
  ℕ, ◌+◌, ◌≡◌, refl, arith, Bool, true, false, ◌||◌, Option, none, some, List, [], ◌∷◌, ◌++◌, ap,
  sym, ◌∙◌, u16, Bool-cases, inl, inr,
}
use axon_go.Common.Result.{Result, ok, ◌>>=◌, ◌>>◌, >>=-eq-ok, reject_if}
use axon_go.Unlocks.{
  Error, Unlocks, nil, cons, signature_unlock, reference_unlock, account_unlock, anchor_unlock,
  nft_unlock, multi_unlock, empty_unlock, Seen, nothing_seen, has, referential_valid,
  sub_referential_valid, signature_unlock_not_unique, multi_unlock_not_unique, sub_unlocks_valid,
  encoded, signatures_unique_and_reference_unlocks_validator, validate_unlocks, add_referential,
}

-- The signers of the signature unlocks of a list, and those inside of its multi unlocks.
module _ (public_key_hash : ℕ → ℕ) where
  abbrev pub signers : Unlocks → List ℕ
  signers nil = []
  signers (cons (signature_unlock (some s)) us) = public_key_hash s.public_key ∷ signers us
  signers (cons u us) = signers us

  abbrev pub signers_in_multi : Unlocks → List ℕ
  signers_in_multi nil = []
  signers_in_multi (cons (multi_unlock vs) us) = signers vs ++ signers_in_multi us
  signers_in_multi (cons u us) = signers_in_multi us

abbrev pub Distinct : List ℕ → Type 0
Distinct [] = Unit {0}
Distinct (x ∷ xs) = (has xs x ≡ false) × Distinct xs

ok-injective : {a b : Seen} → ◌≡◌ {A = Result Error Seen} (ok a) (ok b) → a ≡ b
ok-injective e = cc

has-append : (xs ys : List ℕ) (y : ℕ) → has (xs ++ ys) y ≡ has xs y || has ys y
has-append [] ys y = refl
has-append (x ∷ xs) ys y = ground (arith, has-append xs ys y)

-- What the loop over a multi unlock with these signers does to the signers that are seen.
record IsSub (seen seen' : Seen) (uids : List ℕ) : Type 0 where
  same : seen'.signer_uids ≡ seen.signer_uids
  more :
      (y : ℕ)
      → has seen'.signer_uids_in_multi_unlocks y
        ≡ has uids y || has seen.signer_uids_in_multi_unlocks y
  new : (y : ℕ) → has uids y ≡ true → has seen.signer_uids y ≡ false

same-IsSub :
    {seen seen' : Seen} → ◌≡◌ {A = Result Error Seen} (ok seen) (ok seen') → IsSub seen seen' []
same-IsSub e =
    let path = ok-injective e in
    record {
      same = ap (λ (s : Seen). s.signer_uids) (sym path);
      more = λ y. ap (λ (s : Seen). has s.signer_uids_in_multi_unlocks y) (sym path);
      new = λ y h. absurd (cc);
    }

module _ (public_key_hash : ℕ → ℕ) where
  signature-IsSub :
      (seen seen' : Seen) (x : ℕ) (us : Unlocks)
      → has seen.signer_uids x ≡ false
      → IsSub
          (record seen { signer_uids_in_multi_unlocks = x ∷ seen.signer_uids_in_multi_unlocks })
          seen'
          (signers public_key_hash us)
      → IsSub seen seen' (x ∷ signers public_key_hash us)
  signature-IsSub seen seen' x us unseen sub = record {
    same = sub.same;
    more = λ y. ground (arith, sub.more y);
    new = λ y h. ground (arith, unseen, sub.new y);
  }

  sub_unlocks_valid-IsSub :
      (us : Unlocks) (seen seen' : Seen)
      → sub_unlocks_valid public_key_hash seen us ≡ ok seen'
      → IsSub seen seen' (signers public_key_hash us)
  unfolding sub_unlocks_valid
  sub_unlocks_valid-IsSub nil seen seen' e = same-IsSub e
  sub_unlocks_valid-IsSub (cons (signature_unlock none) us) seen seen' e = absurd (cc)
  sub_unlocks_valid-IsSub (cons (signature_unlock (some s)) us) seen seen' e =
      let x : ℕ = public_key_hash s.public_key in
      let (_, unseen, rest) =
        >>=-eq-ok (reject_if (has seen.signer_uids x) signature_unlock_not_unique) _ e in
      signature-IsSub seen seen' x us (ground arith) (sub_unlocks_valid-IsSub us _ seen' rest)
  sub_unlocks_valid-IsSub (cons (reference_unlock i) us) seen seen' e =
      let (_, _, rest) = >>=-eq-ok (sub_referential_valid seen false i) _ e in
      sub_unlocks_valid-IsSub us seen seen' rest
  sub_unlocks_valid-IsSub (cons (account_unlock i) us) seen seen' e =
      let (_, _, rest) = >>=-eq-ok (sub_referential_valid seen true i) _ e in
      sub_unlocks_valid-IsSub us seen seen' rest
  sub_unlocks_valid-IsSub (cons (anchor_unlock i) us) seen seen' e =
      let (_, _, rest) = >>=-eq-ok (sub_referential_valid seen true i) _ e in
      sub_unlocks_valid-IsSub us seen seen' rest
  sub_unlocks_valid-IsSub (cons (nft_unlock i) us) seen seen' e =
      let (_, _, rest) = >>=-eq-ok (sub_referential_valid seen true i) _ e in
      sub_unlocks_valid-IsSub us seen seen' rest
  sub_unlocks_valid-IsSub (cons (multi_unlock vs) us) seen seen' e = absurd (cc)
  sub_unlocks_valid-IsSub (cons empty_unlock us) seen seen' e =
      sub_unlocks_valid-IsSub us seen seen' e

-- What validated unlocks are, after some others.
record IsUnique (seen : Seen) (uids in_multi : List ℕ) : Type 0 where
  unseen :
      (y : ℕ)
      → has uids y ≡ true
      → (has seen.signer_uids y ≡ false) × (has seen.signer_uids_in_multi_unlocks y ≡ false)
  unseen_in_multi : (y : ℕ) → has in_multi y ≡ true → has seen.signer_uids y ≡ false
  distinct : Distinct uids
  apart : (y : ℕ) → has uids y ≡ true → has in_multi y ≡ false

signature-IsUnique :
    (seen : Seen) (x index : ℕ) (uids in_multi : List ℕ)
    → has seen.signer_uids x ≡ false
    → has seen.signer_uids_in_multi_unlocks x ≡ false
    → IsUnique
        (record seen {
          signature_unlocks = u16 index ∷ seen.signature_unlocks;
          signer_uids = x ∷ seen.signer_uids;
        })
        uids
        in_multi
    → IsUnique seen (x ∷ uids) in_multi
signature-IsUnique seen x index uids in_multi fresh fresh_in_multi u = record {
  unseen = λ y h. ground (arith, fresh, fresh_in_multi, u.unseen y);
  unseen_in_multi = λ y h. ground (arith, u.unseen_in_multi y h);
  distinct = (ground (arith, u.unseen x), u.distinct);
  apart = λ y h. ground (arith, u.unseen_in_multi y, u.apart y);
}

multi-IsUnique :
    (seen seen' seen'' : Seen) (subs uids in_multi : List ℕ)
    → IsSub seen seen' subs
    → seen''.signer_uids ≡ seen'.signer_uids
    → seen''.signer_uids_in_multi_unlocks ≡ seen'.signer_uids_in_multi_unlocks
    → IsUnique seen'' uids in_multi
    → IsUnique seen uids (subs ++ in_multi)
multi-IsUnique seen seen' seen'' subs uids in_multi sub same same_in_multi u =
    let uids_same : (y : ℕ) → has seen''.signer_uids y ≡ has seen.signer_uids y =
      λ y. ap (λ (l : List ℕ). has l y) (same ∙ sub.same) in
    let more : (y : ℕ)
        → has seen''.signer_uids_in_multi_unlocks y
          ≡ has subs y || has seen.signer_uids_in_multi_unlocks y =
      λ y. ap (λ (l : List ℕ). has l y) same_in_multi ∙ sub.more y in
    record {
      unseen = λ y h. ground (arith, uids_same y, more y, u.unseen y h);
      unseen_in_multi = λ y h. elim (Bool-cases (has subs y)) [
        | inl within ↦ sub.new y within
        | inr without ↦
            let later : has in_multi y ≡ true =
              ground (arith, has-append subs in_multi y, without) in
            sym (uids_same y) ∙ u.unseen_in_multi y later
      ];
      distinct = u.distinct;
      apart = λ y h. ground (arith, has-append subs in_multi y, u.apart y h, more y, u.unseen y h);
    }

module _ (public_key_hash : ℕ → ℕ) (encode : Unlocks → Option ℕ) where
  referential-IsUnique :
      (seen : Seen) (index : ℕ) {uids in_multi : List ℕ}
      → IsUnique (add_referential seen index) uids in_multi
      → IsUnique seen uids in_multi
  referential-IsUnique seen index u = record {
    unseen = u.unseen;
    unseen_in_multi = u.unseen_in_multi;
    distinct = u.distinct;
    apart = u.apart;
  }

  -- The rest of the loop, after a step that leads to a known state.
  rest_after :
      (step next seen' : Seen) (index : ℕ) (us : Unlocks)
      → ◌≡◌ {A = Result Error Seen} (ok step) (ok next)
      → validate_unlocks public_key_hash encode next index us ≡ ok seen'
      → validate_unlocks public_key_hash encode step index us ≡ ok seen'
  rest_after step next seen' index us e rest = cc

  after_referential :
      (seen seen' : Seen) (chainable : Bool) (i index : ℕ) (us : Unlocks)
      → ((referential_valid seen chainable i >> ok (add_referential seen index)) >>= λ next.
          validate_unlocks public_key_hash encode next (index + 1) us)
        ≡ ok seen'
      → validate_unlocks public_key_hash encode (add_referential seen index) (index + 1) us
        ≡ ok seen'
  after_referential seen seen' chainable i index us e =
      let (next, first, rest) =
        >>=-eq-ok (referential_valid seen chainable i >> ok (add_referential seen index)) _ e in
      let (_, _, e1) = >>=-eq-ok (referential_valid seen chainable i) _ first in
      rest_after _ next seen' (index + 1) us e1 rest

  validated-IsUnique :
      (us : Unlocks) (seen seen' : Seen) (index : ℕ)
      → validate_unlocks public_key_hash encode seen index us ≡ ok seen'
      → IsUnique seen (signers public_key_hash us) (signers_in_multi public_key_hash us)
  unfolding validate_unlocks signatures_unique_and_reference_unlocks_validator
  validated-IsUnique nil seen seen' index e = record {
    unseen = λ y h. absurd (cc);
    unseen_in_multi = λ y h. absurd (cc);
    distinct = tt;
    apart = λ y h. absurd (cc);
  }
  validated-IsUnique (cons (signature_unlock none) us) seen seen' index e = absurd (cc)
  validated-IsUnique (cons (signature_unlock (some s)) us) seen seen' index e =
      let x : ℕ = public_key_hash s.public_key in
      let (next, first, rest) =
        >>=-eq-ok
          (signatures_unique_and_reference_unlocks_validator public_key_hash encode seen index
            (signature_unlock (some s)))
          _ e in
      let (_, fresh, e1) =
        >>=-eq-ok (reject_if (has seen.signer_uids x) signature_unlock_not_unique) _ first in
      let (_, fresh_in_multi, e2) =
        >>=-eq-ok (reject_if (has seen.signer_uids_in_multi_unlocks x) signature_unlock_not_unique)
          _ e1 in
      signature-IsUnique seen x index (signers public_key_hash us)
        (signers_in_multi public_key_hash us) (ground arith) (ground arith)
        (validated-IsUnique us _ seen' (index + 1) (rest_after _ next seen' (index + 1) us e2 rest))
  validated-IsUnique (cons (reference_unlock i) us) seen seen' index e =
      referential-IsUnique seen index (
        validated-IsUnique us _ seen' (index + 1) (after_referential seen seen' false i index us e))
  validated-IsUnique (cons (account_unlock i) us) seen seen' index e =
      referential-IsUnique seen index
        (validated-IsUnique us _ seen' (index + 1) (after_referential seen seen' true i index us e))
  validated-IsUnique (cons (anchor_unlock i) us) seen seen' index e =
      referential-IsUnique seen index
        (validated-IsUnique us _ seen' (index + 1) (after_referential seen seen' true i index us e))
  validated-IsUnique (cons (nft_unlock i) us) seen seen' index e =
      referential-IsUnique seen index
        (validated-IsUnique us _ seen' (index + 1) (after_referential seen seen' true i index us e))
  validated-IsUnique (cons (multi_unlock vs) us) seen seen' index e =
      let (next, first, rest) =
        >>=-eq-ok
          (signatures_unique_and_reference_unlocks_validator public_key_hash encode seen index
            (multi_unlock vs))
          _ e in
      let (bytes, _, e1) = >>=-eq-ok (encoded (encode vs)) _ first in
      let (_, _, e2) =
        >>=-eq-ok (reject_if (has seen.multi_unlock_bytes bytes) multi_unlock_not_unique) _ e1 in
      let (inner, sub, e3) = >>=-eq-ok (sub_unlocks_valid public_key_hash seen vs) _ e2 in
      multi-IsUnique seen inner _ (signers public_key_hash vs) (signers public_key_hash us)
        (signers_in_multi public_key_hash us)
        (sub_unlocks_valid-IsSub public_key_hash vs seen inner sub) refl refl
        (validated-IsUnique us _ seen' (index + 1) (rest_after _ next seen' (index + 1) us e3 rest))
  validated-IsUnique (cons empty_unlock us) seen seen' index e = absurd (cc)

-- A signer outside of the multi unlocks signs once: where the validation accepts the unlocks of a transaction, no two signature
-- unlocks have the same signer, and no signer of a signature unlock signs inside of a multi unlock,
-- wherever in the list the multi unlock stands.
pub validate_unlocks-signers :
    (public_key_hash : ℕ → ℕ) (encode : Unlocks → Option ℕ) (us : Unlocks) (seen : Seen)
    → validate_unlocks public_key_hash encode nothing_seen 0 us ≡ ok seen
    → Distinct (signers public_key_hash us)
      × ((y : ℕ)
          → has (signers public_key_hash us) y ≡ true
          → has (signers_in_multi public_key_hash us) y ≡ false)
validate_unlocks-signers public_key_hash encode us seen e =
    let u = validated-IsUnique public_key_hash encode us nothing_seen seen 0 e in
    (u.distinct, u.apart)
