-- ===== src/Syntax/Accepted/Chains.antt =====
-- output.go: what the validator of the chains of the outputs guarantees.
use axon_go.Common.{
  ◌≡◌, refl, arith, Option, none, some, List, [], ◌∷◌, Bool, true, false, not, ◌&&◌, inl, inr,
  Bool-cases,
}
use axon_go.Common.Result.{Result, ok, err, panic, >>=-eq-ok}
use axon_go.Outputs.{ChainId, same_chain, empty_chain}
use axon_go.Outputs.Chains.{same_chain_refl, same_chain_sound}
use axon_go.Syntax.{Error}
use axon_go.Syntax.Outputs.{TxEssenceOutput, chain_id_of}
use axon_go.Syntax.Checks.{has_chain, add_unique, chain_constrained_output_uniqueness}
use axon_go.Syntax.Accepted.Deposits.{Each}

abbrev returned : Result Error (Option ChainId) → Option ChainId
returned (ok chain) = chain
returned (err e) = none
returned panic = none

-- The chain of an output, if it has one.
unfoldable pub chain_of : TxEssenceOutput → Option ChainId
chain_of output = returned (chain_id_of output)

-- Two outputs are of the same chain, and it is not one that the transaction creates.
abbrev pub clash : Option ChainId → Option ChainId → Bool
clash (some a) (some b) = not (empty_chain a) && same_chain a b
clash a b = false

unfoldable pub ChainsDiffer : List TxEssenceOutput → Type 0
ChainsDiffer [] = Unit
ChainsDiffer (output ∷ outputs) =
    Each (λ other. clash (chain_of output) (chain_of other) ≡ false) outputs × ChainsDiffer outputs

add_unique-kept :
    (chain : Option ChainId) (chains : List ChainId) (id : ChainId) {chains' : List ChainId}
    → add_unique chain chains ≡ ok chains'
    → has_chain chains id ≡ true
    → has_chain chains' id ≡ true
unfolding has_chain
add_unique-kept none chains id h known = ground (arith, h, known)
add_unique-kept (some other) chains id h known = ground (arith, h, known)

add_unique-differs :
    (chain : Option ChainId) (chains : List ChainId) (id : ChainId) {chains' : List ChainId}
    → add_unique chain chains ≡ ok chains'
    → has_chain chains id ≡ true
    → clash (some id) chain ≡ false
add_unique-differs none chains id h known = refl
add_unique-differs (some other) chains id h known = elim (Bool-cases (same_chain id other)) [
  | inl same ↦ ground (arith, h, known, same_chain_sound id other same)
  | inr e ↦ ground (arith, e)
]

add_unique-added :
    (id : ChainId) (chains : List ChainId) {chains' : List ChainId}
    → add_unique (some id) chains ≡ ok chains'
    → empty_chain id ≡ false
    → has_chain chains' id ≡ true
unfolding has_chain
add_unique-added id chains h full = ground (arith, h, full, same_chain_refl id)

pub unique-kept :
    (output : TxEssenceOutput) (chains : List ChainId) (id : ChainId) {chains' : List ChainId}
    → chain_constrained_output_uniqueness output chains ≡ ok chains'
    → has_chain chains id ≡ true
    → (has_chain chains' id ≡ true) × (clash (some id) (chain_of output) ≡ false)
unfolding chain_constrained_output_uniqueness chain_of
unique-kept output chains id h known =
    let (chain, e, added) =
      >>=-eq-ok (chain_id_of {E = Error} output) (λ chain. add_unique chain chains) h in
    (
      add_unique-kept chain chains id added known,
      rw e (add_unique-differs chain chains id added known),
    )

-- The chain of an output is known afterwards, where it has one that the transaction does not create.
pub unique-added :
    (output : TxEssenceOutput) (chains : List ChainId) {chains' : List ChainId}
    → chain_constrained_output_uniqueness output chains ≡ ok chains'
    → (id : ChainId) → chain_of output ≡ some id
    → empty_chain id ≡ false
    → has_chain chains' id ≡ true
unfolding chain_constrained_output_uniqueness chain_of
unique-added output chains {chains'} h id e full =
    let (chain, call, added) =
      >>=-eq-ok (chain_id_of {E = Error} output) (λ chain. add_unique chain chains) h in
    let same : chain ≡ some id = rw call at e in
    let added' : add_unique (some id) chains ≡ ok chains' = rw same at added in
    add_unique-added id chains added' full
