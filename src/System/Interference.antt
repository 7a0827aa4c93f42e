-- ===== src/System/Interference.antt =====
-- What other requests and goroutines, other instances of the service and Redis itself may do to the
-- sessions database between two commands of an operation: a key expires, or a command runs that the
-- repository queues.
use accounts_service.Prelude.{String, none, List, ◌∷◌, ◌≡◌, ◌⊎◌, inl, inr}
use accounts_service.External.{External}
use accounts_service.External.Redis.{Command, Keys, run_command}
use accounts_service.System.Keys.{
  IsExpected, AllExpected, IsWellKeyed, Fits-none, run_command-IsWellKeyed,
}

-- What Redis does to the keys on its own: a key stays or expires.
abbrev IsExpiry : Keys → Keys → Type 0
IsExpiry before after = (k : String) → (after k ≡ before k) ⊎ (after k ≡ none)

module _ ⦃x : External⦄ where
  -- From `m`, others may get to the keys at hand.
  pub data Interferes (m : Keys) : Keys → Type 0 where
    quiet : Interferes m m
    expired : (n o : Keys) → Interferes m n → IsExpiry n o → Interferes m o
    ran : (c : Command) (n : Keys) → Interferes m n → IsExpected c → Interferes m (run_command c n)

  -- A pipeline: its commands run in their order, up to one of them, and others may come in between.
  pub data Runs : List Command → Keys → Keys → Type 0 where
    stopped : (cs : List Command) (m n : Keys) → Interferes m n → Runs cs m n
    continued :
        (c : Command) (cs : List Command) (m n o : Keys)
        → Interferes m n
        → Runs cs (run_command c n) o
        → Runs (c ∷ cs) m o

  pub Interferes-trans : (m n o : Keys) → Interferes m n → Interferes n o → Interferes m o
  Interferes-trans m n o i quiet = i
  Interferes-trans m n o i (expired n' _ j expiry) =
      expired n' o (Interferes-trans m n n' i j) expiry
  Interferes-trans m n o i (ran c n' j expected) = ran c n' (Interferes-trans m n n' i j) expected

  pub Runs-Interferes :
      (cs : List Command) (k m o : Keys)
      → Interferes k m
      → Runs cs m o
      → AllExpected cs
      → Interferes k o
  Runs-Interferes cs k m o i (stopped _ _ _ j) all = Interferes-trans k m o i j
  Runs-Interferes _ k m o i (continued c cs _ n _ j runs) (one, rest) =
      let i' = ran c n (Interferes-trans k m n i j) one in
      Runs-Interferes cs k (run_command c n) o i' runs rest

  expiry-IsWellKeyed : (m n : Keys) → IsExpiry m n → IsWellKeyed m → IsWellKeyed n
  expiry-IsWellKeyed m n expiry h = record {
    fits =
        λ k. elim (expiry k) [ inl stays ↦ rw stays (h.fits k) | inr gone ↦ rw gone (Fits-none k) ];
  }

  pub Interferes-IsWellKeyed : (m n : Keys) → Interferes m n → IsWellKeyed m → IsWellKeyed n
  Interferes-IsWellKeyed m n quiet h = h
  Interferes-IsWellKeyed m n (expired o _ i expiry) h =
      expiry-IsWellKeyed o n expiry (Interferes-IsWellKeyed m o i h)
  Interferes-IsWellKeyed m n (ran c o i expected) h =
      run_command-IsWellKeyed c o expected (Interferes-IsWellKeyed m o i h)

  -- Whatever others may have got to before, they may have got to after the call.
  abbrev pub Leaves : (x.World → Keys) → x.World → x.World → Type 0
  Leaves keys before after = (m : Keys) → Interferes m (keys before) → Interferes m (keys after)
