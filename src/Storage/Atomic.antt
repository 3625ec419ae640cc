-- ===== src/Storage/Atomic.antt =====
-- Replacing a file is all or nothing for whoever reads it.
use passport_nostr_signer.Prelude.{
  ◌≡◌, refl, ap, Bool, true, false, inl, inr, some, ◌++◌, arith, Bytes, Text, text, eqb, eqb_iff,
  length, length-append, if◌then◌else◌, Bool-cases, Option-cases,
}
use passport_nostr_signer.Prelude.Result.{Result, ok, err}
use passport_nostr_signer.Storage.{
  FilePath, same_path, Disk, write_to, written, SaveOutcome, SaveError, io, encoding, temp_path,
  write_and_rename, dir_ready, replace, save_file,
}

pub same_path_self : (p : FilePath) → same_path p p ≡ true
unfolding same_path
same_path_self p = elim (Option-cases p.parent) [
  | inl a ↦ elim (Option-cases p.name) [
    | inl b ↦ ground arith
    | inr (n, b) ↦ ground (arith, eqb_iff n n)
  ]
  | inr (d, a) ↦ elim (Option-cases p.name) [
    | inl b ↦ ground (arith, eqb_iff d d)
    | inr (n, b) ↦ ground (arith, eqb_iff d d, eqb_iff n n)
  ]
]

longer : (n : Text) → eqb (n ++ text ".tmp") n ≡ false
unfolding text
longer n = elim (Bool-cases (eqb (n ++ text ".tmp") n)) [
  | inl same ↦ absurd (
      omega (
        arith,
        ap (λ (t : Text). length t) ((eqb_iff (n ++ text ".tmp") n).0 same),
        length-append n (text ".tmp"),
      ))
  | inr other ↦ other
]

-- The temporary file is another file.
temp_path-ne : (default : Text) (p : FilePath) → same_path (temp_path default p) p ≡ false
unfolding same_path temp_path
temp_path-ne default p = elim (Option-cases p.name) [
  | inl b ↦ ground arith
  | inr (n, b) ↦ ground (arith, longer n)
]

-- What a `save` may do to the disk.
pub record IsAtomic {E : Type 0} (path tmp : FilePath) (encoded : Result Bytes E)
    (disk disk' : Disk) (r : Result (Unit {0}) (SaveError E)) : Type 0 where
  pub done : r ≡ ok tt → (bytes : Bytes) × (encoded ≡ ok bytes) × (disk' path ≡ some bytes)
  pub kept : (e : SaveError E) → r ≡ err e → disk' path ≡ disk path
  pub others :
      (q : FilePath) → same_path path q ≡ false → same_path tmp q ≡ false → disk' q ≡ disk q

write_and_rename-IsAtomic :
    {E : Type 0} (tmp path : FilePath) (bytes : Bytes) (outcome : SaveOutcome) (disk : Disk)
    → same_path tmp path ≡ false
    → let (disk', r) = write_and_rename {E = E} tmp path bytes outcome disk in
      IsAtomic path tmp (ok bytes) disk disk' r
unfolding write_and_rename write_to
write_and_rename-IsAtomic tmp path bytes outcome disk ne = record {
  done = λ e. (bytes, refl, ground (arith, same_path_self path));
  kept = λ x e. ground arith;
  others = λ q a b. ground arith;
}

unchanged-IsAtomic :
    {E : Type 0} (path tmp : FilePath) (encoded : Result Bytes E) (disk : Disk) (e : SaveError E)
    → IsAtomic path tmp encoded disk disk (err e)
unchanged-IsAtomic path tmp encoded disk e = record {
  done = λ h. absurd (cc h);
  kept = λ x h. refl;
  others = λ q a b. refl;
}

replace-IsAtomic :
    {E : Type 0} (tmp path : FilePath) (encoded : Result Bytes E) (outcome : SaveOutcome)
    (disk : Disk)
    → same_path tmp path ≡ false
    → let (disk', r) = replace tmp path encoded outcome disk in
      IsAtomic path tmp encoded disk disk' r
unfolding replace
replace-IsAtomic tmp path (err e) outcome disk ne =
    unchanged-IsAtomic path tmp (err e) disk (encoding e)
replace-IsAtomic tmp path (ok bytes) outcome disk ne =
    write_and_rename-IsAtomic tmp path bytes outcome disk ne

IsAtomic-if :
    {E : Type 0} (path tmp : FilePath) (encoded : Result Bytes E) (disk : Disk) (b : Bool)
    (x : Disk × Result (Unit {0}) (SaveError E))
    → IsAtomic path tmp encoded disk x.0 x.1
    → let (disk', r) = if b then x else (disk, err io) in IsAtomic path tmp encoded disk disk' r
IsAtomic-if path tmp encoded disk true x h = h
IsAtomic-if path tmp encoded disk false x h = unchanged-IsAtomic path tmp encoded disk io

-- Whichever calls fail: a `save` that returns Ok has put the encoded bytes in the file; one that
-- returns an error has left the file as it was; and no file but this one and its temporary
-- neighbour changes.
pub save_file-IsAtomic :
    {E : Type 0} (default : Text) (path : FilePath) (encoded : Result Bytes E)
    (outcome : SaveOutcome) (disk : Disk)
    → let (disk', r) = save_file default path encoded outcome disk in
      IsAtomic path (temp_path default path) encoded disk disk' r
unfolding save_file
save_file-IsAtomic default path encoded outcome disk =
    let tmp = temp_path default path in
    IsAtomic-if path tmp encoded disk (dir_ready path outcome)
      (replace tmp path encoded outcome disk)
      (replace-IsAtomic tmp path encoded outcome disk (temp_path-ne default path))

-- A `save` in which no call fails returns Ok.
pub save_file_ok :
    {E : Type 0} (default : Text) (path : FilePath) (bytes : Bytes) (outcome : SaveOutcome)
    (disk : Disk)
    → outcome.dir_created ≡ true
    → outcome.write ≡ written
    → outcome.renamed ≡ true
    → (save_file {E = E} default path (ok bytes) outcome disk).1 ≡ ok tt
unfolding save_file write_and_rename dir_ready
save_file_ok default path bytes outcome disk made wrote moved = ground arith
