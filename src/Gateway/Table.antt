-- ===== src/Gateway/Table.antt =====
-- pkg/accounts_service/v1/protos/accounts_service_v1.pb.gw.go: no path fits two routes of a method.
use mathlib.Core.List.{Memᴰ}
use mathlib.Core.List.Memᴰ.{head, tail}
use accounts_service.Prelude.{
  String, Bool, true, false, ◌&&◌, ◌==◌, Option, none, some, List, [], ◌∷◌, ◌≡◌, refl, eq_iff,
  if◌then◌else◌, ℕ, arith,
}
use accounts_service.External.{External}
use accounts_service.Gateway.{Rest, Server, Params}
use accounts_service.Gateway.Opcodes.{get_elem?, run_pattern, is_known}
use accounts_service.Gateway.Routes.{Route, routes}

abbrev second : List String → Option String
second cs = get_elem? cs 1

-- A pattern of two literals, and then more, fits only paths with the second as their second
-- component.
second-run_pattern :
    (ops : List ℕ) (a b : String) (pool cs : List String) (ps : Params)
    → run_pattern
        (record { version = 1; ops = 2 ∷ 0 ∷ 2 ∷ 1 ∷ ops; pool = a ∷ b ∷ pool; verb = "" })
        cs
      ≡ some ps
    → second cs ≡ some b
second-run_pattern ops a b pool [] ps fits = cc
second-run_pattern ops a b pool (c ∷ []) ps fits = ground arith
second-run_pattern ops a b pool (c ∷ d ∷ cs) ps fits = ground (arith, eq_iff d b)

module _ ⦃x : External⦄ (g : Rest) (server : Server) where
  abbrev literal_of : Route g → Option String
  literal_of r = get_elem? r.pattern.pool 1

  abbrev same_literal : Option String → Option String → Bool
  same_literal (some a) (some b) = a == b
  same_literal _ _ = false

  -- The first route of a method with that literal.
  abbrev find_route : List (Route g) → String → Option String → Option (Route g)
  find_route [] method literal = none
  find_route (r ∷ rs) method literal =
      if r.method == method && same_literal (literal_of r) literal
      then some r
      else find_route rs method literal

  -- The route is the one that is found, and its pattern is known and begins with two literals.
  record IsTabled (r : Route g) : Type 0 where
    found : find_route (routes g server) r.method (literal_of r) ≡ some r
    known : is_known r.pattern ≡ true
    begins :
        (cs : List String) (ps : Params)
        → run_pattern r.pattern cs ≡ some ps
        → second cs ≡ literal_of r

  abbrev AllTabled : List (Route g) → Type 0
  AllTabled [] = Unit
  AllTabled (r ∷ rs) = IsTabled r × AllTabled rs

  AllTabled-mem : (r : Route g) (rs : List (Route g)) → Memᴰ r rs → AllTabled rs → IsTabled r
  AllTabled-mem r [] mem _ = elim mem [ ]
  AllTabled-mem r (_ ∷ _) (head same) (one, _) = rw same one
  AllTabled-mem r (_ ∷ rs) (tail later) (_, all) = AllTabled-mem r rs later all

  routes-AllTabled : AllTabled (routes g server)
  unfolding routes
  routes-AllTabled = (
    record { found = refl; known = refl; begins = second-run_pattern [] _ _ [] },
    (
      record { found = refl; known = refl; begins = second-run_pattern [] _ _ [] },
      (
        record { found = refl; known = refl; begins = second-run_pattern [] _ _ [] },
        (
          record {
            found = refl;
            known = refl;
            begins = second-run_pattern (1 ∷ 0 ∷ 4 ∷ 1 ∷ 5 ∷ 2 ∷ []) _ _ ("VerificationToken" ∷ []);
          },
          (
            record { found = refl; known = refl; begins = second-run_pattern [] _ _ [] },
            (
              record { found = refl; known = refl; begins = second-run_pattern [] _ _ [] },
              (
                record { found = refl; known = refl; begins = second-run_pattern [] _ _ [] },
                (
                  record {
                    found = refl;
                    known = refl;
                    begins = second-run_pattern (2 ∷ 2 ∷ []) _ _ ("password" ∷ []);
                  },
                  (
                    record { found = refl; known = refl; begins = second-run_pattern [] _ _ [] },
                    (
                      record { found = refl; known = refl; begins = second-run_pattern [] _ _ [] },
                      (
                        record {
                          found = refl;
                          known = refl;
                          begins = second-run_pattern (2 ∷ 2 ∷ []) _ _ ("terminate" ∷ []);
                        },
                        tt,
                      ),
                    ),
                  ),
                ),
              ),
            ),
          ),
        ),
      ),
    ),
  )

  pub routes-is_known : (r : Route g) → Memᴰ r (routes g server) → is_known r.pattern ≡ true
  routes-is_known r mem = (AllTabled-mem r (routes g server) mem routes-AllTabled).known

  -- If the patterns of two registered routes of the same method fit the same path, the routes are the
  -- same, so the order in which they are registered does not matter.
  pub routes_unambiguous :
      (r s : Route g) (cs : List String) (ps qs : Params)
      → Memᴰ r (routes g server)
      → Memᴰ s (routes g server)
      → r.method ≡ s.method
      → run_pattern r.pattern cs ≡ some ps
      → run_pattern s.pattern cs ≡ some qs
      → r ≡ s
  routes_unambiguous r s cs ps qs r_mem s_mem method r_fits s_fits =
      let one = AllTabled-mem r (routes g server) r_mem routes-AllTabled in
      let other = AllTabled-mem s (routes g server) s_mem routes-AllTabled in
      let r_second = one.begins cs ps r_fits in
      let s_second = other.begins cs qs s_fits in
      let r_found = one.found in let s_found = other.found in cc
