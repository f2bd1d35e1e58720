-- ===== src/Vfs.antt =====
-- The file system that the cache writes to: github.com/soulteary/vfs-kit, which is not part of the
-- repository, so its state and operations are parameters of the development.
use httpcache_kit.Common.{ℕ, ◌≡◌, ◌≢◌, Bool, true, false, Option, none, some}

-- The paths that the cache removes: `body/v1/<hash>` and `header/v1/<hash>`.
pub data FilePath : Type 0 where
  body header : ℕ → FilePath

-- What `vfs.IsNotExist` tells apart.
pub data FsError : Type 0 where
  not_exist other : FsError

pub record Vfs : Type 1 where
  pub State : Type 0
  pub remove : FilePath → State → Option FsError × State
  pub stat : FilePath → State → Option ℕ

-- `err == nil || vfs.IsNotExist(err)`
abbrev pub is_removed : Option FsError → Bool
is_removed none = true
is_removed (some not_exist) = true
is_removed (some other) = false

-- The documented behaviour of Remove: a path that was removed, or was not there, is gone, and no
-- call of Remove brings a file into being.
pub record Removes (V : Vfs) : Type 0 where
  pub gone :
      (p : FilePath) (s : V.State)
      → is_removed (V.remove p s).0 ≡ true
      → V.stat p (V.remove p s).1 ≡ none
  pub keeps : (p q : FilePath) (s : V.State) → p ≢ q → V.stat q (V.remove p s).1 ≡ V.stat q s
  pub stays_gone :
      (p q : FilePath) (s : V.State) → V.stat q s ≡ none → V.stat q (V.remove p s).1 ≡ none
