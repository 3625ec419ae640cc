-- ===== src/Tests/Vault.antt =====
-- Runs of calls on a keystore, and a development machine's master key.
use passport_nostr_signer.Prelude.{
  ◌≡◌, refl, sym, ap, none, some, List, [], ◌∷◌, Bytes, text, replicate, length, All,
}
use passport_nostr_signer.Prelude.Result.{ok, Result}
use passport_nostr_signer.Storage.{Disk, dir_ready}
use passport_nostr_signer.Keystore.{new, Error}
use passport_nostr_signer.Keystore.Vault.{
  Call, add_call, reveal_call, rename_call, remove_call, calls, answers,
}
use passport_nostr_signer.Keystore.Holding.{IsSealable, Sealable}
use passport_nostr_signer.Keystore.Refines.{calls-Refines}
use passport_nostr_signer.Keystore.Master.{app_seed, app_seed_again}
use passport_nostr_signer.Hexed.{
  IsFaithful, codecs-IsFaithful, hex_bytes_16, hex_bytes_32, hex_bytes_12, hex32, hex64, pubkey_hex,
  HasSize, IsPublic,
}
use passport_nostr_signer.Tests.Samples.{
  keystore_lib, secret_b, uuid_b, saves, path_to, hx, curve, lib,
}
use passport_nostr_signer.Tests.Keys.{secret_b-Unseals}

abbrev session : List Call
session =
    add_call (text "b") secret_b 5 (some uuid_b) (some (replicate 12 0))
    ∷ rename_call uuid_b (text "c")
    ∷ reveal_call uuid_b
    ∷ remove_call uuid_b
    ∷ reveal_call uuid_b
    ∷ []

secret_b-Sealable : Sealable keystore_lib (replicate 32 9) secret_b
secret_b-Sealable = record {
  unseals = secret_b-Unseals;
  seals = λ key nonce. (secret_b.bytes, refl);
}

session-IsSealable : All (IsSealable keystore_lib (replicate 32 9)) session
session-IsSealable = (secret_b-Sealable, (tt, (tt, (tt, (tt, tt)))))

calls-Refines_example :
    calls keystore_lib (replicate 32 9) session new
    ≡ answers keystore_lib (replicate 32 9) session []
calls-Refines_example = calls-Refines keystore_lib (replicate 32 9) session session-IsSealable

abbrev no_files : Disk
no_files p = none

abbrev first_seed : Disk × Result Bytes Error
first_seed = app_seed (path_to (text "m")) (some (replicate 32 9)) saves no_files

first_seed_given : first_seed.1 ≡ ok (replicate 32 9)
unfolding app_seed dir_ready
first_seed_given = refl

app_seed_again_example :
    app_seed (path_to (text "m")) (some (replicate 32 1)) saves first_seed.0
    ≡ (first_seed.0, ok (replicate 32 9))
app_seed_again_example =
    app_seed_again (path_to (text "m")) (some (replicate 32 9)) (some (replicate 32 1)) saves saves
      no_files (replicate 32 9)
      (λ buf h. let is : replicate 32 9 ≡ buf = cc h in ap length (sym is)) first_seed_given

codecs-IsFaithful_example :
    IsFaithful hx (hex_bytes_16 hx) (HasSize 16)
    × IsFaithful hx (hex_bytes_32 hx) (HasSize 32)
    × IsFaithful hx (hex_bytes_12 hx) (HasSize 12)
    × IsFaithful hx (hex32 hx) (HasSize 32)
    × IsFaithful hx (hex64 hx) (HasSize 64)
    × IsFaithful hx (pubkey_hex hx curve lib.show) (IsPublic curve)
codecs-IsFaithful_example = codecs-IsFaithful hx (λ b. refl) curve lib.show
