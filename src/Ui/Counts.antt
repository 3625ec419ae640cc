-- ===== src/Ui/Counts.antt =====
-- src/main.rs: the number of live keys on the screens, and the keys that a request is listed.
use passport_nostr_signer.Prelude.{ℕ, Bool, Text}
use passport_nostr_signer.Prelude.Result.{Result}
use passport_nostr_signer.Keys.{NostrError, PublicKey}
use passport_nostr_signer.Keystore.{KeyInfo}
use passport_nostr_signer.Engine.{Config, Lib}

module _ (lib : Lib) (config : Config) (encode_npub : PublicKey → Result Text NostrError) where
  abbrev row_of : KeyInfo → Text × Text × Text × ℕ × Bool
  row_of k =
      (lib.keystore.hx.encode k.uuid, k.label, lib.keystore.hx.encode k.npub, k.color, k.archived)
