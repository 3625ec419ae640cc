-- ===== src/Autosign/File/RoundTrip.antt =====
-- What `save` wrote, `load` reads back.
use passport_nostr_signer.Prelude.{◌≡◌, ◌≢◌, refl, ◌∙◌, inl, inr, [], ◌∷◌, arith, Bytes, text}
use passport_nostr_signer.Prelude.Result.{map_err, ok, Result-cases, ◌>>=◌}
use passport_nostr_signer.External.{RoundTripsAt}
use passport_nostr_signer.Storage.{FilePath, Disk, SaveOutcome}
use passport_nostr_signer.Storage.Atomic.{save_file-IsAtomic}
use passport_nostr_signer.Autosign.{AutoSignStore, format_version}
use passport_nostr_signer.Autosign.File.{
  Lib, FileError, payload_of, file_of, mac_bytes, check_file, from_bytes, to_bytes, save, load,
}
use passport_nostr_signer.Autosign.File.Mac.{constant_time_eq_iff}

-- What the round trip of one store needs of `hex` and of `serde_json`.
pub record IsFaithful (lib : Lib) (s : AutoSignStore) (mac_key : Bytes) : Type 0 where
  pub hex_back :
      (mac : Bytes)
      → mac_bytes lib mac_key (payload_of s) ≡ ok mac
      → lib.hex.decode (lib.hex.encode mac) ≡ ok mac
  pub json_back :
      (mac : Bytes)
      → mac_bytes lib mac_key (payload_of s) ≡ ok mac
      → RoundTripsAt lib.file_json (file_of s (lib.hex.encode mac))

module _ (lib : Lib) (s : AutoSignStore) (mac_key : Bytes) where
  check_file_of :
      (mac : Bytes)
      → s.version ≡ format_version
      → mac_bytes lib mac_key (payload_of s) ≡ ok mac
      → lib.hex.decode (lib.hex.encode mac) ≡ ok mac
      → check_file lib (file_of s (lib.hex.encode mac)) mac_key ≡ ok s
  unfolding check_file
  check_file_of mac current computed decoded = ground (arith, (constant_time_eq_iff mac mac).1 refl)

  from_bytes_nonempty :
      (bytes : Bytes)
      → bytes ≢ []
      → from_bytes lib bytes mac_key
        ≡ (map_err FileError.json (lib.file_json.parse bytes) >>= λ f. check_file lib f mac_key)
  unfolding from_bytes
  from_bytes_nonempty [] h = absurd (h refl)
  from_bytes_nonempty (b ∷ bs) h = refl

  -- The bytes that `to_bytes` gives under a key are read back as the same store under that key.
  pub from_bytes-to_bytes :
      (bytes : Bytes)
      → s.version ≡ format_version
      → IsFaithful lib s mac_key
      → to_bytes lib s mac_key ≡ ok bytes
      → from_bytes lib bytes mac_key ≡ ok s
  unfolding to_bytes
  from_bytes-to_bytes bytes current faithful h =
      elim (Result-cases (mac_bytes lib mac_key (payload_of s))) [
        | inl (mac, m) ↦
            let file = file_of s (lib.hex.encode mac) in
            elim (Result-cases (lib.file_json.print file)) [
              | inl (b, e) ↦
                  let (nonempty, parsed) = faithful.json_back mac m bytes (ground arith) in
                  from_bytes_nonempty bytes nonempty
                  ∙ (rw parsed (check_file_of mac current m (faithful.hex_back mac m)))
              | inr (x, e) ↦ absurd (ground arith)
            ]
        | inr (x, m) ↦ absurd (ground arith)
      ]

  -- A `load` after a `save` of a policy of the current version that returned Ok, with the same key, gives
  -- the store that was saved, if hex and serde_json read back what they wrote for it.
  pub load-save :
      (path : FilePath) (outcome : SaveOutcome) (disk : Disk)
      → s.version ≡ format_version
      → IsFaithful lib s mac_key
      → (save lib s path mac_key outcome disk).1 ≡ ok tt
      → load lib path mac_key (save lib s path mac_key outcome disk).0 ≡ ok s
  unfolding save load
  load-save path outcome disk current faithful h =
      let atomic =
        save_file-IsAtomic (text "autosign") path (to_bytes lib s mac_key) outcome disk in
      let (bytes, encoded, stored) = atomic.done h in
      rw (stored, load) (from_bytes-to_bytes bytes current faithful encoded)
