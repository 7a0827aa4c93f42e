-- ===== src/Logger.antt =====
-- pkg/logging/logging.go: where the log goes, by the mode.
pub mod Modes
use accounts_service.Prelude.{ℕ, String, Option, none, some}
use accounts_service.Models.Errors.{GoError}
use accounts_service.Effect.{Result, ok, err, M, Outcome, done, panic, pure, ◌>>=◌}

-- `Mode`
pub data Mode : Type 0 where
  test file_output console_output file_and_console_output : Mode

-- A mode of a file, by its three octal digits.
pub record FileMode : Type 0 where
  pub owner : ℕ
  group : ℕ
  pub other : ℕ

-- 0755
abbrev pub logs_dir_mode : FileMode
logs_dir_mode = record { owner = 7; group = 5; other = 5 }

-- 0660
abbrev pub logs_file_mode : FileMode
logs_file_mode = record { owner = 6; group = 6; other = 0 }

-- `os.MkdirAll`, and `os.OpenFile` with the flags that create a file and append to it.
pub record FileSystem : Type 1 where
  pub World : Type 0
  pub File : Type 0
  pub mkdir_all : String → FileMode → World → Option GoError × World
  pub open_file : String → FileMode → World → Result File × World

-- What the logger writes to.
pub data Output (File : Type 0) : Type 0 where
  stdout : Output File
  logfile : File → Output File
  logfile_and_stdout : File → Output File

module _ ⦃fs : FileSystem⦄ where
  -- The directory is made with the mode given, and the file is opened in it. `os.IsExist(err)`
  -- is only asked of a nil error, of which it is false.
  unfoldable pub open_log : FileMode → M fs.World fs.File
  open_log dir_mode w =
      let (failed, w') = fs.mkdir_all "logs" dir_mode w in
      elim failed [
        | some e ↦ (panic, w')
        | none ↦
            let (opened, w'') = fs.open_file "logs/all_logs.log" logs_file_mode w' in
            elim opened [ ok f ↦ (done f, w'') | err e ↦ (panic, w'') ]
      ]

  -- `NewEntry`, up to the format of the lines.
  unfoldable pub new_entry : Mode → M fs.World (Output fs.File)
  unfolding open_log
  new_entry test = pure stdout
  new_entry console_output = pure stdout
  new_entry file_and_console_output = open_log logs_file_mode >>= λ f. pure (logfile_and_stdout f)
  new_entry file_output = open_log logs_dir_mode >>= λ f. pure (logfile f)
