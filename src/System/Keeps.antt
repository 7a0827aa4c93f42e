-- ===== src/System/Keeps.antt =====
-- Invariants of actions: what an action keeps, and what its result is good for, with one rule for
-- each way to build an action.
use accounts_service.Prelude.{Bool, true, false, Option, none, some, ◌≡◌, refl, arith}
use accounts_service.Models.Errors.{GoError}
use accounts_service.Effect.{
  Result, ok, err, Outcome, done, fail, panic, M, pure, throw, gets, call, from_result, modify,
  throw_if, check, map_error, ◌>>=◌, ◌>>◌,
}

-- The action keeps `P`, however it ends; if it ends well from a state with `P`, its value has `Q`.
pub record Keeps {S A : Type 0} (P : S → Type 0) (m : M S A) (Q : A → Type 0) : Type 0 where
  pub after : (s : S) → P s → P (m s).1
  pub value : (s : S) (a : A) → P s → (m s).0 ≡ done a → Q a

-- Nothing is said of the value.
abbrev pub Any : {A : Type 0} → A → Type 0
Any a = Unit {0}

module _ {S A : Type 0} {P : S → Type 0} where
  pub Keeps-call :
      (f : S → Result A × S) {Q : A → Type 0}
      → ((s : S) → P s → P (f s).1)
      → ((s : S) (a : A) → P s → (f s).0 ≡ ok a → Q a)
      → Keeps P (call f) Q
  Keeps-call f kept good = record {
    after = λ s h. ground (arith, kept s h);
    value = λ s a h e. good s a h (ground arith);
  }

  -- A call of which only the state matters.
  pub Keeps-run : (f : S → Result A × S) → ((s : S) → P s → P (f s).1) → Keeps P (call f) Any
  Keeps-run f kept = Keeps-call f kept (λ s a h e. tt)

  pub Keeps-pure : (a : A) {Q : A → Type 0} → Q a → Keeps P (pure a) Q
  Keeps-pure a q = record { after = λ s h. h; value = λ s b h e. ground (arith, q) }

  pub Keeps-throw : (e : GoError) {Q : A → Type 0} → Keeps P (throw {A = A} e) Q
  Keeps-throw e = record { after = λ s h. h; value = λ s a h e'. cc }

  pub Keeps-gets : (f : S → A) → Keeps P (gets f) Any
  Keeps-gets f = record { after = λ s h. h; value = λ s a h e. tt }

  pub Keeps-from_result :
      (r : Result A) {Q : A → Type 0} → ((a : A) → r ≡ ok a → Q a) → Keeps P (from_result r) Q
  Keeps-from_result (ok a) q = Keeps-pure a (q a refl)
  Keeps-from_result (err e) q = Keeps-throw e

  -- However an action has ended, its deferred calls and its caller see this.
  pub Keeps-map_error :
      (g : GoError → GoError) (m : M S A) {Q : A → Type 0} → Keeps P m Q → Keeps P (map_error g m) Q
  Keeps-map_error g m k = record {
    after = λ s h. ground (arith, k.after s h);
    value = λ s a h e. k.value s a h (ground arith);
  }

module _ {S : Type 0} {P : S → Type 0} where
  pub Keeps-throw_if : (b : Bool) (e : GoError) → Keeps P (throw_if b e) (λ _. b ≡ false)
  Keeps-throw_if true e = record { after = λ s h. h; value = λ s a h e'. cc }
  Keeps-throw_if false e = record { after = λ s h. h; value = λ s a h e'. refl }

  pub Keeps-check : (e : Option GoError) → Keeps P (check e) Any
  Keeps-check none = record { after = λ s h. h; value = λ s a h e. tt }
  Keeps-check (some e) = record { after = λ s h. h; value = λ s a h e'. tt }

  pub Keeps-modify : (f : S → S) → ((s : S) → P s → P (f s)) → Keeps P (modify f) Any
  Keeps-modify f kept = record { after = kept; value = λ s a h e. tt }

module _ {S A B : Type 0} {P : S → Type 0} {R : B → Type 0} where
  resume :
      (f : A → M S B) (r : Outcome A) (s : S)
      → P s
      → ((a : A) → r ≡ done a → Keeps P (f a) R)
      → let t : Outcome B × S = elim r [
        | done a ↦ f a s
        | fail e ↦ (fail e, s)
        | panic ↦ (panic, s)
      ] in
        P t.1 × ((b : B) → t.0 ≡ done b → R b)
  resume f (done a) s h kf = ((kf a refl).after s h, λ b e. (kf a refl).value s b h e)
  resume f (fail e) s h kf = (h, λ b e'. cc)
  resume f panic s h kf = (h, λ b e. cc)

  pub Keeps-bind :
      (m : M S A) (f : A → M S B) {Q : A → Type 0}
      → Keeps P m Q
      → ((a : A) → Q a → Keeps P (f a) R)
      → Keeps P (m >>= f) R
  Keeps-bind m f km kf = record {
    after = λ s h. (resume f (m s).0 (m s).1 (km.after s h) (λ a e. kf a (km.value s a h e))).0;
    value = λ s.
        λ b h e. (resume f (m s).0 (m s).1 (km.after s h) (λ a e'. kf a (km.value s a h e'))).1 b e;
  }

  pub Keeps-then :
      (m : M S A) (n : M S B) {Q : A → Type 0} → Keeps P m Q → Keeps P n R → Keeps P (m >> n) R
  Keeps-then m n km kn = Keeps-bind m (λ _. n) km (λ _ _. kn)
