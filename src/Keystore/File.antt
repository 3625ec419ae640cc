-- ===== src/Keystore/File.antt =====
-- logic/keystore/src/lib.rs: the keystore's file, `to_bytes`, `from_bytes`, `save` and `load`.
use passport_nostr_signer.Prelude.{
  ℕ, ◌≡◌, ◌≢◌, refl, not, inl, inr, none, some, List, [], ◌∷◌, arith, Bytes, text, ◌==◌,
}
use passport_nostr_signer.Prelude.Result.{map_err, Result, ok, ◌>>=◌, ◌>>◌, reject_if, Result-cases}
use passport_nostr_signer.External.{Json, RoundTripsAt}
use passport_nostr_signer.Storage.{FilePath, Disk, SaveOutcome, SaveError, save_file}
use passport_nostr_signer.Storage.Atomic.{save_file-IsAtomic}
use passport_nostr_signer.Keystore.{EncryptedRecord, Keystore, Error, unsupported_version, new}

abbrev pub format_version : ℕ
format_version = 1

pub record KeystoreFile : Type 0 where
  pub version : ℕ
  pub records : List EncryptedRecord

-- `serde_json` at `KeystoreFile`.
module _ (json : Json KeystoreFile) where
  unfoldable pub to_bytes : Keystore → Result Bytes Error
  to_bytes ks =
      map_err Error.json (json.print (record { version = format_version; records = ks.records }))

  unfoldable pub from_bytes : Bytes → Result Keystore Error
  from_bytes [] = ok new
  from_bytes (b ∷ bs) = do
    parsed ← map_err Error.json (json.parse (b ∷ bs))
    reject_if (not (parsed.version == format_version)) (unsupported_version parsed.version)
    ok (record { records = parsed.records })

  unfoldable pub save :
      Keystore → FilePath → SaveOutcome → Disk → Disk × Result (Unit {0}) (SaveError Error)
  save ks path = save_file (text "keystore") path (to_bytes ks)

  -- `load`, where `fs::read` succeeds on a file that exists.
  unfoldable pub load : FilePath → Disk → Result Keystore Error
  load path disk = elim (disk path) [ none ↦ ok new | some bytes ↦ from_bytes bytes ]

  from_bytes_nonempty :
      (bytes : Bytes) (ks : Keystore)
      → bytes ≢ []
      → json.parse bytes ≡ ok (record { version = format_version; records = ks.records })
      → from_bytes bytes ≡ ok ks
  unfolding from_bytes
  from_bytes_nonempty [] ks h e = absurd (h refl)
  from_bytes_nonempty (b ∷ bs) ks h e = ground (arith, e)

  from_bytes-to_bytes :
      (ks : Keystore) (bytes : Bytes)
      → RoundTripsAt json (record { version = format_version; records = ks.records })
      → to_bytes ks ≡ ok bytes
      → from_bytes bytes ≡ ok ks
  unfolding to_bytes
  from_bytes-to_bytes ks bytes back h =
      elim (Result-cases (json.print (record { version = format_version; records = ks.records }))) [
        | inl (b, e) ↦
            let (nonempty, parsed) = back bytes (ground arith) in
            from_bytes_nonempty bytes ks nonempty parsed
        | inr (x, e) ↦ absurd (ground arith)
      ]

  -- A `load` after a `save` that returned Ok gives the keystore that was saved, if `serde_json`
  -- reads back the file it printed.
  pub load_saved :
      (ks : Keystore) (path : FilePath) (outcome : SaveOutcome) (disk : Disk)
      → RoundTripsAt json (record { version = format_version; records = ks.records })
      → (save ks path outcome disk).1 ≡ ok tt
      → load path (save ks path outcome disk).0 ≡ ok ks
  unfolding save load
  load_saved ks path outcome disk back h =
      let atomic = save_file-IsAtomic (text "keystore") path (to_bytes ks) outcome disk in
      let (bytes, encoded, stored) = atomic.done h in
      rw (stored, load) (from_bytes-to_bytes ks bytes back encoded)
