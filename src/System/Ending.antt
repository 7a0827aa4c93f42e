-- ===== src/System/Ending.antt =====
-- internal/service/service.go: the goroutine of `DeleteAccount`, while the process lives.
use mathlib.Core.List.{Memᴰ}
use mathlib.Core.List.Memᴰ
use accounts_service.Prelude.{List}
use accounts_service.External.{External}
use accounts_service.Config.{Config}
use accounts_service.Service.Process.{Process}
use accounts_service.Service.Sessions
use accounts_service.Service.Accounts
use accounts_service.Handler.Methods
