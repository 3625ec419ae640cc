-- ===== src/Storage.antt =====
-- `std::fs` as the program uses it: a disk of files, calls that may fail, and the way in which both
-- stores replace their file (src/autosign.rs and logic/keystore/src/lib.rs, `save` and `temp_path`).
pub mod Atomic
use passport_nostr_signer.Prelude.{
  Bool, true, false, ◌&&◌, Option, none, some, ◌++◌, Bytes, Text, text, eqb, if◌then◌else◌,
}
use passport_nostr_signer.Prelude.Result.{Result, ok, err}

-- A `Path`: its directory, and its `file_name`, which a path such as `/` lacks.
pub record FilePath : Type 0 where
  pub parent : Option Text
  pub name : Option Text

abbrev option_eqb : Option Text → Option Text → Bool
option_eqb none none = true
option_eqb (some a) (some b) = eqb a b
option_eqb _ _ = false

unfoldable pub same_path : FilePath → FilePath → Bool
same_path p q = option_eqb p.parent q.parent && option_eqb p.name q.name

-- The content of each file that exists.
abbrev pub Disk : Type 0
Disk = FilePath → Option Bytes

unfoldable pub write_to : FilePath → Option Bytes → Disk → Disk
write_to p content disk q = if same_path p q then content else disk q

-- What the calls of one `save` come to. A write that fails may leave anything in the file.
pub data WriteOutcome : Type 0 where
  written : WriteOutcome
  failed : Option Bytes → WriteOutcome

pub record SaveOutcome : Type 0 where
  pub dir_created : Bool
  pub write : WriteOutcome
  pub renamed : Bool

pub data SaveError (E : Type 0) : Type 0 where
  io : SaveError E
  encoding : E → SaveError E

-- `temp_path`, with the name that stands in for a missing one.
unfoldable pub temp_path : Text → FilePath → FilePath
temp_path default p = record p {
  name = some (elim p.name [ some n ↦ n | none ↦ default ] ++ text ".tmp");
}

-- `fs::write` and then `fs::rename`.
unfoldable pub write_and_rename :
    {E : Type 0}
    → FilePath
    → FilePath
    → Bytes
    → SaveOutcome
    → Disk
    → Disk × Result (Unit {0}) (SaveError E)
write_and_rename tmp path bytes outcome disk = elim outcome.write [
  | failed left ↦ (write_to tmp left disk, err io)
  | written ↦
      let disk' = write_to tmp (some bytes) disk in
      if outcome.renamed
      then (write_to tmp none (write_to path (some bytes) disk'), ok tt)
      else (disk', err io)
]

-- `if let Some(parent) = path.parent() { create_dir_all(parent)?; }`
unfoldable pub dir_ready : FilePath → SaveOutcome → Bool
dir_ready path outcome = elim path.parent [ none ↦ true | some _ ↦ outcome.dir_created ]

-- `to_bytes()?` and the two calls that follow.
unfoldable pub replace :
    {E : Type 0}
    → FilePath
    → FilePath
    → Result Bytes E
    → SaveOutcome
    → Disk
    → Disk × Result (Unit {0}) (SaveError E)
replace tmp path (err e) outcome disk = (disk, err (encoding e))
replace tmp path (ok bytes) outcome disk = write_and_rename tmp path bytes outcome disk

-- `save`: make the directory, encode, write beside the file, and rename over it.
unfoldable pub save_file :
    {E : Type 0}
    → Text
    → FilePath
    → Result Bytes E
    → SaveOutcome
    → Disk
    → Disk × Result (Unit {0}) (SaveError E)
unfolding replace
save_file default path encoded outcome disk =
    if dir_ready path outcome
    then replace (temp_path default path) path encoded outcome disk
    else (disk, err io)
