-- ===== src/Ui/Derive.antt =====
-- src/main.rs: `derive_nostr_from_app_seed`, the key of a new identity.
use passport_nostr_signer.Prelude.{ℕ, ◌++◌, Bytes, Text, text}
use passport_nostr_signer.Prelude.Result.{Result, ◌>>=◌, map_err}
use passport_nostr_signer.External.{Hex, Curve}
use passport_nostr_signer.Describe.{Show, nostr_text, keystore_text}
use passport_nostr_signer.Keys.{SecretKey}
use passport_nostr_signer.Keystore
use passport_nostr_signer.Nip06
use passport_nostr_signer.Nip06.{derive}

module _ {Scalar : Type 0} (nip06 : Nip06.Lib Scalar) (curve : Curve) (hx : Hex) (show : Show)
    (from_entropy : Bytes → Result Text Text) where
  -- `from_entropy` is that of `bip39::Mnemonic`, with the words printed and its error by its message.
  unfoldable pub derive_nostr_from_app_seed :
      Result Bytes Keystore.Error → ℕ → Result SecretKey Text
  derive_nostr_from_app_seed app_seed account = do
    seed ← map_err (λ e. text "app key unavailable: " ++ keystore_text show e) app_seed
    mnemonic ← map_err (λ e. text "app key to mnemonic: " ++ e) (from_entropy seed)
    map_err (λ e. text "nip06 derive: " ++ nostr_text show e)
        (derive nip06 curve hx mnemonic (text "") account)
