-- ===== src/Gateway/Opcodes.antt =====
-- The opcodes of a pattern, as `utilities` of grpc-gateway numbers them and `runtime` runs them on
-- the components of a path: 1 pushes a component, 2 pushes a component that is the literal at the
-- operand, 4 joins as many components as the operand says, 5 binds the name at the operand. This is
-- what is assumed of `runtime`; it is not code of this repository.
use accounts_service.Prelude.{
  ℕ, zero, suc, String, ◌<>◌, Bool, true, false, ◌&&◌, ◌||◌, Option, none, some, List, [], ◌∷◌,
  ◌==◌, num_eq, if◌then◌else◌,
}
use accounts_service.Gateway.{Pattern, Params}

abbrev pub get_elem? : List String → ℕ → Option String
get_elem? [] i = none
get_elem? (x ∷ xs) zero = some x
get_elem? (x ∷ xs) (suc i) = get_elem? xs i

-- The components that are left, the stack and the bindings.
record Machine : Type 0 where
  pub components : List String
  stack : List String
  pub params : Params

abbrev push : Machine → Option Machine
push m = elim m.components [
  | [] ↦ none
  | c ∷ cs ↦ some (record m { components = cs; stack = c ∷ m.stack })
]

abbrev push_literal : Option String → Machine → Option Machine
push_literal none m = none
push_literal (some literal) m = elim m.components [
  | [] ↦ none
  | c ∷ cs ↦ if c == literal then some (record m { components = cs; stack = c ∷ m.stack }) else none
]

-- The stack with its `n` uppermost texts joined to `text`.
abbrev join_top : ℕ → String → List String → List String
join_top zero text stack = text ∷ stack
join_top (suc n) text [] = text ∷ []
join_top (suc n) text (s ∷ stack) = join_top n (s <> "/" <> text) stack

abbrev concat_top : ℕ → Machine → Option Machine
concat_top zero m = none
concat_top (suc n) m = elim m.stack [
  | [] ↦ none
  | s ∷ stack ↦ some (record m { stack = join_top n s stack })
]

abbrev capture : Option String → Machine → Option Machine
capture none m = none
capture (some name) m = elim m.stack [
  | [] ↦ none
  | s ∷ stack ↦ some (record m { stack = stack; params = (name, s) ∷ m.params })
]

abbrev run_op : ℕ → ℕ → List String → Machine → Option Machine
run_op op operand pool m =
    if num_eq op 1
    then push m
    else if num_eq op 2
    then push_literal (get_elem? pool operand) m
    else if num_eq op 4
    then concat_top operand m
    else if num_eq op 5
    then capture (get_elem? pool operand) m
    else none

-- The whole path has to be used up.
abbrev accept : Machine → Option Params
accept m = elim m.components [ [] ↦ some m.params | c ∷ cs ↦ none ]

abbrev run_ops : List ℕ → List String → Machine → Option Params
run_ops [] pool m = accept m
run_ops (op ∷ []) pool m = none
run_ops (op ∷ operand ∷ ops) pool m = elim (run_op op operand pool m) [
  | none ↦ none
  | some m' ↦ run_ops ops pool m'
]

abbrev pub run_pattern : Pattern → List String → Option Params
run_pattern p components =
    run_ops p.ops p.pool (record { components = components; stack = []; params = [] })

-- A pattern of the opcodes above, for paths without a verb.
abbrev is_known_ops : List ℕ → Bool
is_known_ops [] = true
is_known_ops (op ∷ []) = false
is_known_ops (op ∷ _ ∷ ops) =
    (num_eq op 1 || num_eq op 2 || num_eq op 4 || num_eq op 5) && is_known_ops ops

abbrev pub is_known : Pattern → Bool
is_known p = num_eq p.version 1 && p.verb == "" && is_known_ops p.ops
