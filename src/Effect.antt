-- ===== src/Effect.antt =====
-- How a Go call ends, and the monad in which the handlers, the service and the repositories are
-- written: state passing over `S`, with errors and panics.
use accounts_service.Prelude.{Bool, true, false, Option, none, some, ◌≡◌, ◌≢◌, ◌⊎◌, inl, inr, refl}
use accounts_service.Models.Errors.{GoError, service_error}

-- What a call of a library gives: `(value, nil)` or an error.
pub data Result (A : Type 0) : Type 0 where
  ok : A → Result A
  err : GoError → Result A

-- What a call of the program's own code gives; `panic` is a run-time panic.
pub data Outcome (A : Type 0) : Type 0 where
  done : A → Outcome A
  fail : GoError → Outcome A
  panic : Outcome A

abbrev pub M : Type 0 → Type 0 → Type 0
M S A = S → Outcome A × S

module _ {S A : Type 0} where
  abbrev pub pure : A → M S A
  pure a s = (done a, s)

  abbrev pub throw : GoError → M S A
  throw e s = (fail e, s)

  abbrev pub crash : M S A
  crash s = (panic, s)

  abbrev pub gets : (S → A) → M S A
  gets f s = (done (f s), s)

  -- `value, err := call(); if err != nil { return err }`
  abbrev pub call : (S → Result A × S) → M S A
  call f s = let (r, s') = f s in elim r [ ok a ↦ (done a, s') | err e ↦ (fail e, s') ]

  abbrev pub from_result : Result A → M S A
  from_result (ok a) s = (done a, s)
  from_result (err e) s = (fail e, s)

abbrev pub modify : {S : Type 0} → (S → S) → M S (Unit {0})
modify f s = (done tt, f s)

infixl 5 ◌>>=◌ ◌>>◌
abbrev pub ◌>>=◌ : {S A B : Type 0} → M S A → (A → M S B) → M S B
◌>>=◌ m f s =
    let (r, s') = m s in elim r [ done a ↦ f a s' | fail e ↦ (fail e, s') | panic ↦ (panic, s') ]

abbrev pub ◌>>◌ : {S A B : Type 0} → M S A → M S B → M S B
m >> k = m >>= λ _. k

-- `if test { return err }`
abbrev pub throw_if : {S : Type 0} → Bool → GoError → M S (Unit {0})
throw_if true e s = (fail e, s)
throw_if false e s = (done tt, s)

-- `if err != nil { return err }` on an error at hand.
abbrev pub check : {S : Type 0} → Option GoError → M S (Unit {0})
check none s = (done tt, s)
check (some e) s = (fail e, s)

-- A call whose error the caller replaces.
abbrev pub map_error : {S A : Type 0} → (GoError → GoError) → M S A → M S A
map_error g m s =
    let (r, s') = m s in
    elim r [ done a ↦ (done a, s') | fail e ↦ (fail (g e), s') | panic ↦ (panic, s') ]

-- `err` as the deferred functions and the callers see it.
abbrev pub outcome_error : {A : Type 0} → Outcome A → Option GoError
outcome_error (done _) = none
outcome_error (fail e) = some e
outcome_error panic = none

-- The error of a call that the caller inspects instead of returning it.
abbrev pub try : {S A : Type 0} → M S A → M S (Option GoError)
try m s =
    let (r, s') = m s in
    elim r [ done _ ↦ (done none, s') | fail e ↦ (done (some e), s') | panic ↦ (panic, s') ]

-- What is returned once the deferred functions have set `err`.
abbrev pub settle : {A : Type 0} → Outcome A → Option GoError → Outcome A
settle (done a) none = done a
settle (done _) (some e) = fail e
settle (fail e) none = fail e
settle (fail _) (some e) = fail e
settle panic _ = panic

abbrev is_service_error : GoError → Bool
is_service_error (service_error _) = true
is_service_error _ = false

-- No error, or an error that is a `ServiceError`; a panic carries no error.
abbrev pub is_service_outcome : {A : Type 0} → Outcome A → Bool
is_service_outcome (done _) = true
is_service_outcome (fail e) = is_service_error e
is_service_outcome panic = true

-- Whatever the state, no error of the action is other than a `ServiceError`.
abbrev pub Reports : {S A : Type 0} → M S A → Type 0
Reports {S} m = (s : S) → is_service_outcome (m s).0 ≡ true

-- To split on how a call ended and keep the equation.
pub Outcome-cases : {A : Type 0} (r : Outcome A) → ((a : A) × (r ≡ done a)) ⊎ ((a : A) → r ≢ done a)
Outcome-cases (done a) = inl (a, refl)
Outcome-cases (fail e) = inr (λ a h. cc)
Outcome-cases panic = inr (λ a h. cc)

pub Result-cases :
    {A : Type 0} (r : Result A) → ((a : A) × (r ≡ ok a)) ⊎ ((e : GoError) × (r ≡ err e))
Result-cases (ok a) = inl (a, refl)
Result-cases (err e) = inr (e, refl)
