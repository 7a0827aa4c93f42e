-- ===== src/Redis/Sessions/Members.antt =====
-- Membership in the lists that `TerminateSessions` computes and in the sets that Redis keeps.
use accounts_service.Prelude.{
  String, true, not, ◌&&◌, ◌||◌, ◌≡◌, refl, Option, none, some, List, [], ◌∷◌, ◌++◌, contains,
  eq_iff, arith,
}
use accounts_service.External.Redis.{
  Entry, text, members, members_of, accepts_key, without, remove_members, set_entry,
}
use accounts_service.Redis.Sessions

contains-without :
    (vs gone : List String) (j : String)
    → contains (without vs gone) j ≡ (contains vs j && not (contains gone j))
contains-without [] gone j = refl
contains-without (v ∷ vs) gone j = ground (arith, eq_iff j v, contains-without vs gone j)

pub contains-append :
    (xs ys : List String) (j : String) → contains (xs ++ ys) j ≡ (contains xs j || contains ys j)
contains-append [] ys j = refl
contains-append (x ∷ xs) ys j = ground (arith, contains-append xs ys j)

pub contains-missing_keys :
    (ids present : List String) (j : String)
    → contains (Sessions.missing_keys ids present) j ≡ (contains ids j && not (contains present j))
contains-missing_keys [] present j = refl
contains-missing_keys (k ∷ ids) present j =
    ground (arith, eq_iff j k, contains-missing_keys ids present j)

members_of-set_entry : (vs : List String) → members_of (set_entry vs) ≡ vs
members_of-set_entry [] = refl
members_of-set_entry (v ∷ vs) = refl

-- What `SREM` names is no member afterwards.
pub contains-remove_members :
    (gone : List String) (e : Option Entry) (j : String)
    → contains (members_of (remove_members gone e)) j
      ≡ (contains (members_of e) j && not (contains gone j))
contains-remove_members gone none j = refl
contains-remove_members gone (some (text t)) j = refl
contains-remove_members gone (some (members vs)) j =
    rw (members_of-set_entry (without vs gone)) (contains-without vs gone j)

pub accepts_key-remove_members :
    (gone : List String) (e : Option Entry)
    → accepts_key e ≡ true
    → accepts_key (remove_members gone e) ≡ true
accepts_key-remove_members gone none h = refl
accepts_key-remove_members gone (some (text t)) h = h
accepts_key-remove_members gone (some (members vs)) h =
    elim (without vs gone) as (λ u. accepts_key (set_entry u) ≡ true) [ [] ↦ refl | v ∷ us ↦ refl ]
