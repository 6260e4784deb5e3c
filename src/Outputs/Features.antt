-- ===== src/Outputs/Features.antt =====
-- feat.go: the comparison of features. The features of a slice are in the order of their types, so that
-- two slices are compared feature by feature of the same type.
use axon_go.Common.{ℕ, ◌==◌, Bool, true, false, not, ◌&&◌, Option, none, some, List}
use axon_go.Common.Result.{Result, reject_if}
use axon_go.Merkle.{bytes_equal}
use axon_go.Address.{address_equal, Crypto}
use axon_go.Outputs.{ChainId, FeatureSet, same_chain}

abbrev pub same_option {ℓ} : {A : Type ℓ} → (A → A → Bool) → Option A → Option A → Bool
same_option same none none = true
same_option same none (some b) = false
same_option same (some a) none = false
same_option same (some a) (some b) = same a b

abbrev pub same_token : ChainId × ℕ → ChainId × ℕ → Bool
same_token (id, amount) (id', amount') = same_chain id id' && (amount == amount')

unfoldable pub features_equal : Crypto → FeatureSet → FeatureSet → Bool
features_equal crypto f other =
    same_option (address_equal crypto) f.sender other.sender
    && same_option (address_equal crypto) f.issuer other.issuer
    && same_option bytes_equal f.metadata other.metadata
    && same_option bytes_equal f.state_metadata other.state_metadata
    && same_option bytes_equal f.tag other.tag
    && same_option same_token f.native_token other.native_token

-- `FeatureUnchanged` for a feature that is told by its bytes.
unfoldable pub feature_unchanged : Option (List ℕ) → Option (List ℕ) → Result (Unit {0}) (Unit {0})
feature_unchanged before after = reject_if (not (same_option bytes_equal before after)) tt
