-- ===== src/External.antt =====
-- What the program takes from crates that are not in the repository. An operation is a field; what a
-- theorem relies on is among the theorem's own hypotheses.
use passport_nostr_signer.Prelude.{◌≡◌, ◌≢◌, Bool, Option, [], Bytes, Text}
use passport_nostr_signer.Prelude.Result.{Result, ok}

-- The `hex` crate. A failure to decode is given by its message.
pub record Hex : Type 0 where
  pub encode : Bytes → Text
  pub decode : Text → Result Bytes Text

-- `k256::schnorr` over 32-byte keys: which byte strings are keys, the x-only public key of a secret
-- one, signing an event id with the randomness drawn (it may fail), and verifying.
pub record Curve : Type 0 where
  pub valid_secret : Bytes → Bool
  pub valid_public : Bytes → Bool
  pub public_of : Bytes → Bytes
  pub sign_prehash : Bytes → Bytes → Bytes → Option Bytes
  pub valid_signature : Bytes → Bool
  pub verify_prehash : Bytes → Bytes → Bytes → Bool

-- `serde_json` at one type: the writer may fail, and the reader fails on other input.
pub record Json (A : Type 0) : Type 0 where
  pub print : A → Result Bytes Text
  pub parse : Bytes → Result A Text

-- What is printed is not empty and parses to what it was printed from.
abbrev pub RoundTripsAt : {A : Type 0} → Json A → A → Type 0
RoundTripsAt json a =
    (bytes : Bytes) → json.print a ≡ ok bytes → (bytes ≢ []) × (json.parse bytes ≡ ok a)
