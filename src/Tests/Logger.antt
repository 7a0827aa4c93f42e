-- ===== src/Tests/Logger.antt =====
-- The modes of the logger, over a directory in memory.
use accounts_service.Prelude.{Option, none, some, if◌then◌else◌}
use accounts_service.Models.Errors.{other_error}
use accounts_service.Effect.{ok, err}
use accounts_service.Logger.{FileMode, FileSystem}
use accounts_service.Logger.Modes.{is_searchable}

-- The state is the mode of the directory, if there is one.
instance abbrev directory : FileSystem
directory = record {
  World = Option FileMode;
  File = Unit {0};
  mkdir_all = λ name m w. (none, elim w [ none ↦ some m | some old ↦ some old ]);
  open_file = λ name m w. (
    elim w [
      | none ↦ err (other_error "no such file or directory")
      | some old ↦ if is_searchable old then ok tt else err (other_error "permission denied")
    ],
    w,
  );
}
