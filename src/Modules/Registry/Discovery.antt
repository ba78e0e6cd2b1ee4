-- ===== src/Modules/Registry/Discovery.antt =====
-- What a discovered roster guarantees (modules/registry.py).
use testing_platform_backend.Modules.Contract.{ModuleDescriptor, TestDeclaration}
use testing_platform_backend.Modules.Registry.{
  EntryPoint, Roster, accept, claim_tests, claimant, discover, discover_from, registered_twice,
}
use testing_platform_backend.Prelude.{
  >>=-ok, All, All-append, All-map, List, Option-cases, String, [], any, arith, false, inl, inr,
  map, none, not, ok, ok-injective, require-ok, str_eq, str_eq_iff, subst, ◌++◌, ◌∷◌, ◌≡◌,
}

-- No key of the list equals `k`.
abbrev pub Fresh : String → List String → Type 0
Fresh k = All (λ j. str_eq k j ≡ false)

abbrev pub Distinct : List String → Type 0
Distinct [] = Unit
Distinct (k ∷ ks) = Fresh k ks × Distinct ks

abbrev pub keys_of_tests : List TestDeclaration → List String
keys_of_tests = map (λ t. t.test_key)

-- The test keys that a roster declares, in order.
abbrev pub declared_keys : Roster → List String
declared_keys [] = []
declared_keys (e ∷ r) = keys_of_tests e.descriptor.tests ++ declared_keys r

abbrev pub entry_names : Roster → List String
entry_names = map (λ e. e.entry_point)

abbrev Unclaimed : List (String × String) → String → Type 0
Unclaimed seen k = claimant k seen ≡ none

Fresh-append : (k : String) (xs ys : List String) → Fresh k xs → Fresh k ys → Fresh k (xs ++ ys)
Fresh-append k xs ys = All-append (λ j. str_eq k j ≡ false) xs ys

Distinct-append :
    (xs ys : List String)
    → Distinct xs
    → Distinct ys
    → All (λ x. Fresh x ys) xs
    → Distinct (xs ++ ys)
Distinct-append [] ys dx dy a = dy
Distinct-append (x ∷ xs) ys dx dy a =
    (Fresh-append x xs ys dx.0 a.0, Distinct-append xs ys dx.1 dy a.1)

-- The claims of one entry point: its keys were unclaimed and are distinct, and a key that is
-- unclaimed afterwards was so before and is none of them.
record Claimed (ts : List TestDeclaration) (seen seen' : List (String × String)) : Type 0 where
  unclaimed : All (Unclaimed seen) (keys_of_tests ts)
  distinct : Distinct (keys_of_tests ts)
  kept : (k : String) → Unclaimed seen' k → Unclaimed seen k × Fresh k (keys_of_tests ts)

later-Unclaimed :
    (k e : String) (seen : List (String × String)) (ks : List String)
    → All (Unclaimed ((k, e) ∷ seen)) ks
    → All (Unclaimed seen) ks × Fresh k ks
unfolding claimant
later-Unclaimed k e seen [] h = (tt, tt)
later-Unclaimed k e seen (j ∷ ks) h =
    let ih = later-Unclaimed k e seen ks h.1 in ((ground arith, ih.0), (ground arith, ih.1))

Unclaimed-later :
    (k e j : String) (seen : List (String × String))
    → Unclaimed ((k, e) ∷ seen) j
    → Unclaimed seen j × (str_eq k j ≡ false)
unfolding claimant
Unclaimed-later k e j seen h = ground arith

str_eq_comm : (j k : String) → str_eq k j ≡ false → str_eq j k ≡ false
str_eq_comm j k h = ground (arith, str_eq_iff j k, str_eq_iff k j)

claim_tests-Claimed :
    (name : String) (ts : List TestDeclaration) (seen seen' : List (String × String))
    → claim_tests name ts seen ≡ ok seen'
    → Claimed ts seen seen'
unfolding claim_tests
claim_tests-Claimed name [] seen seen' h = record {
  unclaimed = tt;
  distinct = tt;
  kept = λ k u. (ground arith, tt);
}
claim_tests-Claimed name (t ∷ ts) seen seen' h = elim (Option-cases (claimant t.test_key seen)) [
  | inr (c, e) ↦ ground arith
  | inl e ↦
      let c = claim_tests-Claimed name ts ((t.test_key, name) ∷ seen) seen' (ground arith) in
      let u = later-Unclaimed t.test_key name seen (keys_of_tests ts) c.unclaimed in
      record {
        unclaimed = (e, u.0);
        distinct = (u.1, c.distinct);
        kept = λ k v.
            let (w, f) = c.kept k v in
            let (s, n) = Unclaimed-later t.test_key name k seen w in
            (s, (str_eq_comm k t.test_key n, f));
      }
]

-- All the keys of a roster were unclaimed before, and they are distinct.
record Discovered (r : Roster) (names : List String) (seen : List (String × String)) : Type 0 where
  unclaimed : All (Unclaimed seen) (declared_keys r)
  distinct : Distinct (declared_keys r)
  new_names : All (λ n. Fresh n names) (entry_names r)
  distinct_names : Distinct (entry_names r)

Fresh-swap : (ks ts : List String) → All (λ k. Fresh k ts) ks → All (λ t. Fresh t ks) ts
Fresh-swap ks [] h = tt
Fresh-swap ks (t ∷ ts) h = (
  All-map (λ k. Fresh k (t ∷ ts)) (λ k. str_eq t k ≡ false) ks (λ k f. str_eq_comm t k f.0) h,
  Fresh-swap ks ts (All-map (λ k. Fresh k (t ∷ ts)) (λ k. Fresh k ts) ks (λ k f. f.1) h),
)

-- One round of the loop that went through.
record Round (p : EntryPoint) (ps : List EntryPoint) (names : List String)
    (seen : List (String × String)) (r : Roster) : Type 0 where
  descriptor : ModuleDescriptor
  seen' : List (String × String)
  rest : Roster
  new_name : any (λ n. str_eq n p.name) names ≡ false
  accepted : accept p ≡ ok descriptor
  claimed : claim_tests p.name descriptor.tests seen ≡ ok seen'
  went_on : discover_from ps (p.name ∷ names) seen' ≡ ok rest
  result : record { entry_point = p.name; descriptor = descriptor } ∷ rest ≡ r

discover_from-Round :
    (p : EntryPoint) (ps : List EntryPoint) (names : List String) (seen : List (String × String))
    (r : Roster)
    → discover_from (p ∷ ps) names seen ≡ ok r
    → Round p ps names seen r
unfolding discover_from
discover_from-Round p ps names seen r h =
    let (n, h₁) = require-ok (not (any (λ n. str_eq n p.name) names)) registered_twice _ h in
    let (d, a, h₂) = >>=-ok (accept p) _ h₁ in
    let (s, c, h₃) = >>=-ok (claim_tests p.name d.tests seen) _ h₂ in
    let (rest, w, h₄) = >>=-ok (discover_from ps (p.name ∷ names) s) _ h₃ in
    record {
      descriptor = d;
      seen' = s;
      rest = rest;
      new_name = ground arith;
      accepted = a;
      claimed = c;
      went_on = w;
      result = ok-injective h₄;
    }

not_seen :
    (name : String) (names : List String)
    → any (λ n. str_eq n name) names ≡ false
    → Fresh name names
not_seen name [] h = tt
not_seen name (n ∷ names) h =
    (str_eq_comm name n (ground arith), not_seen name names (ground arith))

Fresh-later :
    (n : String) (names ns : List String)
    → All (λ m. Fresh m (n ∷ names)) ns
    → Fresh n ns × All (λ m. Fresh m names) ns
Fresh-later n names [] h = (tt, tt)
Fresh-later n names (m ∷ ns) h =
    let (f, a) = Fresh-later n names ns h.1 in ((str_eq_comm n m h.0.0, f), (h.0.1, a))

Discovered-cons :
    (p : EntryPoint) (ps : List EntryPoint) (names : List String) (seen : List (String × String))
    (r : Roster) (k : Round p ps names seen r)
    → Discovered k.rest (p.name ∷ names) k.seen'
    → Discovered (record { entry_point = p.name; descriptor = k.descriptor } ∷ k.rest) names seen
Discovered-cons p ps names seen r k ih =
    let ts = k.descriptor.tests in
    let c = claim_tests-Claimed p.name ts seen k.seen' k.claimed in
    let ks = declared_keys k.rest in
    let u : All (Unclaimed seen) ks =
      All-map (Unclaimed k.seen') (Unclaimed seen) ks (λ j v. (c.kept j v).0) ih.unclaimed in
    let f : All (λ j. Fresh j (keys_of_tests ts)) ks =
      All-map (Unclaimed k.seen') (λ j. Fresh j (keys_of_tests ts)) ks (λ j v. (c.kept j v).1)
        ih.unclaimed in
    let (n, ns) = Fresh-later p.name names (entry_names k.rest) ih.new_names in
    record {
      unclaimed = All-append (Unclaimed seen) (keys_of_tests ts) ks c.unclaimed u;
      distinct =
          Distinct-append (keys_of_tests ts) ks c.distinct ih.distinct
            (Fresh-swap ks (keys_of_tests ts) f);
      new_names = (not_seen p.name names k.new_name, ns);
      distinct_names = (n, ih.distinct_names);
    }

discover_from-Discovered :
    (ps : List EntryPoint) (names : List String) (seen : List (String × String)) (r : Roster)
    → discover_from ps names seen ≡ ok r
    → Discovered r names seen
unfolding discover_from
discover_from-Discovered [] names seen r h =
    subst (λ s. Discovered s names seen) (ok-injective h)
      (record { unclaimed = tt; distinct = tt; new_names = tt; distinct_names = tt })
discover_from-Discovered (p ∷ ps) names seen r h =
    let k = discover_from-Round p ps names seen r h in
    subst (λ s. Discovered s names seen) k.result
      (Discovered-cons p ps names seen r k
        (discover_from-Discovered ps (p.name ∷ names) k.seen' k.rest k.went_on))

-- A roster that discovery returns has no entry-point name twice, and no test key is declared
-- twice, neither by two modules nor by one.
pub discover-Distinct :
    (ps : List EntryPoint) (r : Roster)
    → discover ps ≡ ok r
    → Distinct (entry_names r) × Distinct (declared_keys r)
unfolding discover
discover-Distinct ps r h =
    let d = discover_from-Discovered ps [] [] r h in (d.distinct_names, d.distinct)
