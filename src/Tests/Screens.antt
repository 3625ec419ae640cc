-- ===== src/Tests/Screens.antt =====
-- What the screens call, on the device of the samples.
use passport_nostr_signer.Prelude.{
  ◌≡◌, ◌≢◌, refl, true, false, none, some, text, replicate, eqb, any_of,
}
use passport_nostr_signer.Prelude.Result.{ok}
use passport_nostr_signer.Storage.{write_and_rename, dir_ready, replace, save_file}
use passport_nostr_signer.Keys.{public_key}
use passport_nostr_signer.Keystore.{
  get_info, new, add, make_record, seal_record, push_record, remove_first,
}
use passport_nostr_signer.Keystore
use passport_nostr_signer.Keystore.File
use passport_nostr_signer.Autosign.{is_key, empty_store}
use passport_nostr_signer.Autosign.File.{to_bytes, save}
use passport_nostr_signer.Engine.{Device}
use passport_nostr_signer.Engine.Screens.{
  persist, change_keystore, set_archived, delete, add_key, finish_add,
}
use passport_nostr_signer.Engine.Identities.{IsRetired, set_archived-IsRetired, delete_done}
use passport_nostr_signer.Engine.Additions.{IsAdded, add_key-IsAdded}
use passport_nostr_signer.Tests.Samples.{lib, config, device, saves, uuid_a, uuid_b, secret_b}
use passport_nostr_signer.Tests.Keys.{secret_b-Unseals, two_keys-IsValid}

archived_a : (set_archived lib config uuid_a true saves saves device).1 ≡ ok tt
unfolding set_archived Keystore.set_archived change_keystore persist File.save File.to_bytes
    save_file replace write_and_rename dir_ready eqb
archived_a = refl

set_archived-IsRetired_example :
    IsRetired uuid_a (set_archived lib config uuid_a true saves saves device).0
set_archived-IsRetired_example =
    set_archived-IsRetired lib config uuid_a saves saves device archived_a

deleted_a : (delete lib config uuid_a saves saves device).1 ≡ ok tt
unfolding delete Keystore.remove change_keystore persist File.save File.to_bytes save_file replace
    write_and_rename dir_ready eqb
deleted_a = refl

delete_done_example :
    let d' = (delete lib config uuid_a saves saves device).0 in
    (get_info uuid_a d'.keystore ≡ none)
    × (d'.selected ≢ some uuid_a)
    × (any_of (is_key uuid_a) d'.autosign.rules ≡ false)
delete_done_example = delete_done lib config uuid_a saves saves device two_keys-IsValid deleted_a

abbrev fresh : Device
fresh = record { keystore = new; autosign = empty_store; selected = none; disk = λ p. none }

added_b :
    (add_key lib config
      (text "b")
      secret_b
      1
      5
      (some uuid_b)
      (some (replicate 12 0))
      (ok (replicate 32 9))
      saves
      fresh).1
    ≡ ok uuid_b
unfolding add_key add make_record seal_record push_record public_key finish_add Keystore.set_color
    change_keystore persist File.save File.to_bytes save_file replace write_and_rename dir_ready eqb
added_b = refl

add_key-IsAdded_example :
    IsAdded lib config
      (text "b")
      secret_b
      1
      5
      (some uuid_b)
      (some (replicate 12 0))
      (replicate 32 9)
      saves
      fresh
      uuid_b
      (add_key lib config
        (text "b")
        secret_b
        1
        5
        (some uuid_b)
        (some (replicate 12 0))
        (ok (replicate 32 9))
        saves
        fresh).0
add_key-IsAdded_example =
    add_key-IsAdded lib config (text "b") secret_b 1 5 (some uuid_b) (some (replicate 12 0))
      (replicate 32 9) saves fresh uuid_b secret_b-Unseals added_b
