-- ===== src/Logger/Modes.antt =====
-- Which modes can open the log file.
use accounts_service.Prelude.{Bool, true, false, ◌||◌, Option, none, some, ◌≡◌, num_eq}
use accounts_service.Models.Errors.{GoError}
use accounts_service.Effect.{ok, err}
use accounts_service.Logger.{FileMode, FileSystem, logs_file_mode}

-- The owner may enter a directory with that mode.
abbrev pub is_searchable : FileMode → Bool
is_searchable m = num_eq m.owner 1 || (num_eq m.owner 3 || (num_eq m.owner 5 || num_eq m.owner 7))

-- A directory that the process owns, without the rights of root: `os.MkdirAll` makes it with the
-- mode given, of which the umask leaves the owner's part, and leaves one that is there alone, and a file in it can only be opened if its owner
-- may enter it.
pub record IsFileSystem ⦃fs : FileSystem⦄ (logs : fs.World → Option FileMode) : Type 0 where
  pub mkdir_new :
      (m : FileMode) (w : fs.World)
      → logs w ≡ none
      → ((fs.mkdir_all "logs" m w).0 ≡ none)
        × (made : FileMode) × (made.owner ≡ m.owner)
        × (logs (fs.mkdir_all "logs" m w).1 ≡ some made)
  pub mkdir_old :
      (m old : FileMode) (w : fs.World)
      → logs w ≡ some old
      → ((fs.mkdir_all "logs" m w).0 ≡ none) × (logs (fs.mkdir_all "logs" m w).1 ≡ some old)
  pub open_denied :
      (old : FileMode) (w : fs.World)
      → logs w ≡ some old
      → is_searchable old ≡ false
      → (e : GoError) × ((fs.open_file "logs/all_logs.log" logs_file_mode w).0 ≡ err e)
  pub logs-open_file :
      (w : fs.World) → logs (fs.open_file "logs/all_logs.log" logs_file_mode w).1 ≡ logs w
  pub open_allowed :
      (old : FileMode) (w : fs.World)
      → logs w ≡ some old
      → is_searchable old ≡ true
      → (f : fs.File) × ((fs.open_file "logs/all_logs.log" logs_file_mode w).0 ≡ ok f)
