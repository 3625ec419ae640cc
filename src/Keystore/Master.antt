-- ===== src/Keystore/Master.antt =====
-- logic/keystore/src/lib.rs: `FileMasterKey`, the master key of a development machine.
use passport_nostr_signer.Prelude.{
  ◌≡◌, refl, not, inl, inr, Option, none, some, Bytes, text, length, ◌==◌, Bool-cases,
  if◌then◌else◌,
}
use passport_nostr_signer.Prelude.Result.{Result, ok, err}
use passport_nostr_signer.Storage.{
  FilePath, Disk, SaveOutcome, written, failed, write_to, dir_ready, WriteOutcome,
}
use passport_nostr_signer.Storage.Atomic.{same_path_self}
use passport_nostr_signer.Keystore.{Error, io, aead, rng}

unfoldable pub read_master : Bytes → Result Bytes Error
read_master bytes =
    if not (length bytes == 32) then err (aead (text "file master must be 32 bytes")) else ok bytes

abbrev pub write_master : WriteOutcome → FilePath → Bytes → Disk → Disk × Result Bytes Error
write_master (failed left) path buf disk = (write_to path left disk, err io)
write_master written path buf disk = (write_to path (some buf) disk, ok buf)

abbrev pub draw_master : Option Bytes → WriteOutcome → FilePath → Disk → Disk × Result Bytes Error
draw_master none write path disk = (disk, err rng)
draw_master (some buf) write path disk = write_master write path buf disk

abbrev pub seed_at :
    Option Bytes → Option Bytes → SaveOutcome → FilePath → Disk → Disk × Result Bytes Error
seed_at (some bytes) draw outcome path disk = (disk, read_master bytes)
seed_at none draw outcome path disk =
    if dir_ready path outcome then draw_master draw outcome.write path disk else (disk, err io)

-- `FileMasterKey::app_seed`, where `fs::read` succeeds on a file that exists. `draw` is what `getrandom`
-- gives; of the outcome it is the directory and the write that count.
unfoldable pub app_seed : FilePath → Option Bytes → SaveOutcome → Disk → Disk × Result Bytes Error
unfolding read_master
app_seed path draw outcome disk = seed_at (disk path) draw outcome path disk

-- The disk holds this seed.
abbrev Stored : FilePath → Bytes → Disk → Type 0
Stored path seed disk = (bytes : Bytes) × (disk path ≡ some bytes) × (read_master bytes ≡ ok seed)

drawn-Stored :
    (path : FilePath) (draw : Option Bytes) (write : WriteOutcome) (disk : Disk) (seed : Bytes)
    → ((buf : Bytes) → draw ≡ some buf → length buf ≡ 32)
    → (draw_master draw write path disk).1 ≡ ok seed
    → Stored path seed (draw_master draw write path disk).0
unfolding read_master write_to
drawn-Stored path none write disk seed size h = absurd (cc h)
drawn-Stored path (some buf) (failed left) disk seed size h = absurd (cc h)
drawn-Stored path (some buf) written disk seed size h =
    (buf, rw (same_path_self path) refl, rw (size buf refl) h)

seed_at-Stored :
    (path : FilePath) (o draw : Option Bytes) (outcome : SaveOutcome) (disk : Disk) (seed : Bytes)
    → disk path ≡ o
    → ((buf : Bytes) → draw ≡ some buf → length buf ≡ 32)
    → (seed_at o draw outcome path disk).1 ≡ ok seed
    → Stored path seed (seed_at o draw outcome path disk).0
seed_at-Stored path (some bytes) draw outcome disk seed e size h = (bytes, e, h)
seed_at-Stored path none draw outcome disk seed e size h =
    elim (Bool-cases (dir_ready path outcome)) [
      | inl ready ↦ rw ready (drawn-Stored path draw outcome.write disk seed size (rw ready at h))
      | inr missing ↦ absurd (cc (rw missing at h))
    ]

-- Once a seed was given, the same seed is given again, whatever is drawn then, and the disk stays as it
-- is; a draw has 32 bytes.
pub app_seed_again :
    (path : FilePath) (draw draw' : Option Bytes) (outcome outcome' : SaveOutcome) (disk : Disk)
    (seed : Bytes)
    → ((buf : Bytes) → draw ≡ some buf → length buf ≡ 32)
    → (app_seed path draw outcome disk).1 ≡ ok seed
    → let disk' = (app_seed path draw outcome disk).0 in
      app_seed path draw' outcome' disk' ≡ (disk', ok seed)
unfolding app_seed
app_seed_again path draw draw' outcome outcome' disk seed size h =
    let (bytes, at, good) = seed_at-Stored path (disk path) draw outcome disk seed refl size h in
    rw (at, good) refl
