-- ===== src/Transactions/Storage.antt =====
-- The files that a transaction writes: vfs-kit's in place, or on a disk root those of package os, by
-- a temporary file and a rename. Neither is part of the repository.
use httpcache_kit.Common.{ℕ, ◌≡◌, ◌≢◌, Bool, true, false, Option, none, some, Text, length}
use httpcache_kit.Vfs.{Vfs, FilePath, is_removed}

-- How a write ends: the bytes that were copied, whether a file was opened, and whether there was no
-- error.
pub record Written : Type 0 where
  pub bytes : ℕ
  pub opened : Bool
  pub done : Bool

-- `content` is what opening a path and reading it to the end finds; the code does not call it here.
pub record Storage : Type 1 where
  pub vfs : Vfs
  pub on_disk : Bool
  pub content : FilePath → vfs.State → Option Text
  -- vfs.OpenFile with O_TRUNC, a copy and Close
  pub write : FilePath → Text → vfs.State → Written × vfs.State
  -- os.CreateTemp under the staging directory, a copy and Close
  pub stage : Text → vfs.State → Written × vfs.State
  -- os.Rename of a temporary file with the given bytes; false is an error
  pub rename : FilePath → Text → vfs.State → Bool × vfs.State
  -- os.Remove of a temporary file; false is an error
  pub remove_temp : vfs.State → Bool × vfs.State

-- What the documentation of package os and of vfs-kit says of these calls.
pub record StorageLaws (S : Storage) : Type 0 where
  pub removed :
      (p : FilePath) (s : S.vfs.State)
      → is_removed (S.vfs.remove p s).0 ≡ true
      → S.content p (S.vfs.remove p s).1 ≡ none
  pub remove_keeps :
      (p q : FilePath) (s : S.vfs.State) → p ≢ q → S.content q (S.vfs.remove p s).1 ≡ S.content q s
  pub stays_gone :
      (p q : FilePath) (s : S.vfs.State)
      → S.content q s ≡ none
      → S.content q (S.vfs.remove p s).1 ≡ none
  pub written :
      (p : FilePath) (t : Text) (s : S.vfs.State)
      → (S.write p t s).0.done ≡ true
      → (S.content p (S.write p t s).1 ≡ some t) × ((S.write p t s).0.bytes ≡ length t)
  pub unopened :
      (p q : FilePath) (t : Text) (s : S.vfs.State)
      → (S.write p t s).0.opened ≡ false
      → (S.content q (S.write p t s).1 ≡ S.content q s) × ((S.write p t s).0.done ≡ false)
  pub write_keeps :
      (p q : FilePath) (t : Text) (s : S.vfs.State)
      → p ≢ q
      → S.content q (S.write p t s).1 ≡ S.content q s
  pub staged :
      (t : Text) (s : S.vfs.State)
      → (S.stage t s).0.done ≡ true
      → ((S.stage t s).0.bytes ≡ length t) × ((S.stage t s).0.opened ≡ true)
  pub stage_keeps :
      (q : FilePath) (t : Text) (s : S.vfs.State) → S.content q (S.stage t s).1 ≡ S.content q s
  pub renamed :
      (p : FilePath) (t : Text) (s : S.vfs.State)
      → (S.rename p t s).0 ≡ true
      → S.content p (S.rename p t s).1 ≡ some t
  pub unrenamed :
      (p q : FilePath) (t : Text) (s : S.vfs.State)
      → (S.rename p t s).0 ≡ false
      → S.content q (S.rename p t s).1 ≡ S.content q s
  pub rename_keeps :
      (p q : FilePath) (t : Text) (s : S.vfs.State)
      → p ≢ q
      → S.content q (S.rename p t s).1 ≡ S.content q s
  pub remove_temp_keeps :
      (q : FilePath) (s : S.vfs.State) → S.content q (S.remove_temp s).1 ≡ S.content q s
