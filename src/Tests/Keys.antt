-- ===== src/Tests/Keys.antt =====
-- The keystore and its file.
use passport_nostr_signer.Prelude.{
  ◌≡◌, refl, sym, true, none, some, [], ◌∷◌, Bytes, text, replicate, eqb, if◌then◌else◌,
}
use passport_nostr_signer.Prelude.Result.{Result, ok}
use passport_nostr_signer.Storage.{Disk, write_and_rename, dir_ready, replace, save_file}
use passport_nostr_signer.Keys.{public_key}
use passport_nostr_signer.Keystore.{
  Keystore, Error, add, make_record, seal_record, push_record, remove, remove_first, reveal,
  set_archived, new,
}
use passport_nostr_signer.Keystore.Invariant
use passport_nostr_signer.Keystore.Invariant.{history-IsValid}
use passport_nostr_signer.Keystore.Secrets.{Unseals, reveal-add}
use passport_nostr_signer.Keystore.File.{save, load, to_bytes, load_saved}
use passport_nostr_signer.Tests.Samples.{
  keystore_lib, keystore_json, secret_b, uuid_b, two_keys, saves, path_to,
}

abbrev disk : Disk
disk p = none

abbrev seed : Result Bytes Error
seed = ok (replicate 32 9)

pub secret_b-Unseals : Unseals keystore_lib secret_b
secret_b-Unseals = record {
  aead_back = λ key nonce ct h. sym h;
  hex_back = λ b. refl;
  secret = record { size = refl; valid = refl };
}

pub two_keys-IsValid : Invariant.IsValid two_keys
unfolding eqb
two_keys-IsValid = record { uuids = (refl, (refl, tt)); npubs = (refl, (refl, tt)) }

abbrev only_a : Keystore
only_a = (remove uuid_b two_keys).0

removed_b : (remove uuid_b two_keys).1 ≡ ok tt
unfolding remove eqb
removed_b = refl

added_b :
    (add keystore_lib (text "b") secret_b 5 (some uuid_b) (some (replicate 12 0)) seed only_a).1
    ≡ ok uuid_b
unfolding add make_record seal_record push_record public_key remove remove_first eqb
added_b = refl

reveal-add_example :
    reveal keystore_lib uuid_b seed
      (add keystore_lib (text "b") secret_b 5 (some uuid_b) (some (replicate 12 0)) seed only_a).0
    ≡ (if eqb uuid_b uuid_b then ok secret_b else reveal keystore_lib uuid_b seed only_a)
reveal-add_example =
    reveal-add keystore_lib (text "b") secret_b 5 (some uuid_b) (some (replicate 12 0))
      (replicate 32 9) only_a uuid_b uuid_b secret_b-Unseals added_b

keystore_saved : (save keystore_json two_keys (path_to (1 ∷ [])) saves disk).1 ≡ ok tt
unfolding save to_bytes save_file replace write_and_rename dir_ready
keystore_saved = refl

load_saved_example :
    load keystore_json
      (path_to (1 ∷ []))
      (save keystore_json two_keys (path_to (1 ∷ [])) saves disk).0
    ≡ ok two_keys
load_saved_example =
    load_saved keystore_json two_keys (path_to (1 ∷ [])) saves disk
      (λ bytes p. (λ e. absurd (cc (p, e)), refl)) keystore_saved

history-IsValid_example :
    Invariant.IsValid
      (set_archived uuid_b true
        (add keystore_lib (text "b") secret_b 5 (some uuid_b) (some (replicate 12 0)) seed new).0).0
history-IsValid_example =
    history-IsValid {lib = keystore_lib}
      {ks = (set_archived uuid_b true
        (add keystore_lib (text "b") secret_b 5 (some uuid_b) (some (replicate 12 0)) seed
          new).0).0}
      (Invariant.next
        (Invariant.next Invariant.here
          (Invariant.added (text "b") secret_b 5 (some uuid_b) (some (replicate 12 0)) seed))
        (Invariant.archived uuid_b true))
