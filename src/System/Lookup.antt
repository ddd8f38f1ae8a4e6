-- ===== src/System/Lookup.antt =====
-- What find and ownsPrefix of internal/system/route_linux.go tell of an entry, against the listed
-- routes that are spelled like it.
use xray_runner.Prelude.{
  if◌then◌else◌, sym, Bool, true, false, not, ◌&&◌, ◌||◌, ◌≡◌, refl, List, [], ◌∷◌, any, str_eq,
  arith, Bool-cases, inl, inr,
}
use xray_runner.Prelude.Outcome.{Outcome, fail, ok, Outcome-cases}
use xray_runner.System.Entries.{
  owns_prefix, IpRule, find, find_rule, same_rule, Netip, TunEntry, IpRoute, EntryError, prefix_eq,
  route_dst, same_route, Match, elsewhere, unreadable, exact, rival, match_route, find_route,
  owns_from,
}
use xray_runner.System.Host.{spells}

abbrev is_exact : Match → Bool
is_exact exact = true
is_exact _ = false

abbrev is_rival : Match → Bool
is_rival rival = true
is_rival _ = false

exact_iff_spells :
    (ip : Netip) (e : TunEntry) (r : IpRoute) → is_exact (match_route ip e r) ≡ spells ip e r
unfolding match_route spells
exact_iff_spells ip e r = elim (Bool-cases (str_eq r.table e.table)) [
  | inr q ↦ rw q refl
  | inl q ↦ elim (Outcome-cases (route_dst ip r.dst e.v6)) [
    | inl (why, d) ↦ rw (q, d) refl
    | inr (p, d) ↦
        rw (q, d)
          (elim (Bool-cases (prefix_eq p e.prefix)) [
            | inr t ↦ rw t refl
            | inl t ↦
                rw t (elim (Bool-cases (same_route e r)) [ inl f ↦ rw f refl | inr f ↦ rw f refl ])
          ])
  ]
]

-- what find says when `mine` tells whether the entry is listed, and `rivals` whether another
-- route in its place is
abbrev Found : Bool → Bool → Bool → Outcome EntryError (Bool × Bool) → Type 0
Found foreign mine rivals (fail _) = Unit
Found foreign mine rivals (ok found) =
    (found.0 ≡ mine) × (found.1 ≡ (not mine && (foreign || rivals)))

Found-step :
    (x : Match) (foreign mine rivals : Bool) (here there : Outcome EntryError (Bool × Bool))
    → Found foreign mine rivals here
    → Found true mine rivals there
    → Found foreign (is_exact x || mine) (is_rival x || rivals) (elim x [
      | elsewhere ↦ here
      | unreadable why ↦ fail why
      | exact ↦ ok (true, false)
      | rival ↦ there
    ])
Found-step elsewhere foreign mine rivals here there h t = h
Found-step (unreadable why) foreign mine rivals here there h t = tt
Found-step exact foreign mine rivals here there h t = (refl, refl)
Found-step rival foreign mine rivals here (fail why) h t = tt
Found-step rival foreign mine rivals here (ok found) h t = ground (arith, t)

abbrev is_rival_of : Netip → TunEntry → IpRoute → Bool
is_rival_of ip e r = is_rival (match_route ip e r)

find_route-Found :
    (ip : Netip) (e : TunEntry) (foreign : Bool) (routes : List IpRoute)
    → Found foreign
        (any (spells ip e) routes)
        (any (is_rival_of ip e) routes)
        (find_route ip e foreign routes)
unfolding find_route
find_route-Found ip e foreign [] = ground arith
find_route-Found ip e foreign (r ∷ routes) = rw (sym (exact_iff_spells ip e r)) (
    Found-step (match_route ip e r) foreign (any (spells ip e) routes)
      (any (is_rival_of ip e) routes) (find_route ip e foreign routes) (find_route ip e true routes)
      (find_route-Found ip e foreign routes) (find_route-Found ip e true routes))

abbrev Owned : Bool → Bool → Outcome EntryError (Bool × Bool) → Type 0
Owned mine rivals (fail _) = Unit
Owned mine rivals (ok found) = (found.0 ≡ mine) × (found.1 ≡ rivals)

Owned-step :
    (x : Match) (mine shared ours rivals : Bool) (skip own share : Outcome EntryError (Bool × Bool))
    → Owned (mine || ours) (shared || rivals) skip
    → Owned true (shared || rivals) own
    → Owned (mine || ours) true share
    → Owned
        (mine || (is_exact x || ours))
        (shared || (is_rival x || rivals))
        (elim x [ elsewhere ↦ skip | unreadable why ↦ fail why | exact ↦ own | rival ↦ share ])
Owned-step elsewhere mine shared ours rivals skip own share s o h = s
Owned-step (unreadable why) mine shared ours rivals skip own share s o h = tt
Owned-step exact mine shared ours rivals skip (fail why) share s o h = tt
Owned-step exact mine shared ours rivals skip (ok found) share s o h = ground (arith, o)
Owned-step rival mine shared ours rivals skip own (fail why) s o h = tt
Owned-step rival mine shared ours rivals skip own (ok found) s o h = ground (arith, h)

owns_from-Owned :
    (ip : Netip) (e : TunEntry) (mine shared : Bool) (routes : List IpRoute)
    → Owned
        (mine || any (spells ip e) routes)
        (shared || any (is_rival_of ip e) routes)
        (owns_from ip e mine shared routes)
unfolding owns_from
owns_from-Owned ip e mine shared [] = ground arith
owns_from-Owned ip e mine shared (r ∷ routes) = rw (sym (exact_iff_spells ip e r)) (
    Owned-step (match_route ip e r) mine shared (any (spells ip e) routes)
      (any (is_rival_of ip e) routes) (owns_from ip e mine shared routes)
      (owns_from ip e true shared routes) (owns_from ip e mine true routes)
      (owns_from-Owned ip e mine shared routes) (owns_from-Owned ip e true shared routes)
      (owns_from-Owned ip e mine true routes))

find_rule-any : (e : TunEntry) (rules : List IpRule) → find_rule e rules ≡ any (same_rule e) rules
unfolding find_rule
find_rule-any e [] = refl
find_rule-any e (r ∷ rules) = rw (find_rule-any e rules) refl

Fails-step :
    (x : Match) (here there skip own share : Outcome EntryError (Bool × Bool)) (why : EntryError)
    → (here ≡ fail why → skip ≡ fail why)
    → (there ≡ fail why → share ≡ fail why)
    → elim x [ elsewhere ↦ here | unreadable w ↦ fail w | exact ↦ ok (true, false) | rival ↦ there ]
      ≡ fail why
    → elim x [ elsewhere ↦ skip | unreadable w ↦ fail w | exact ↦ own | rival ↦ share ] ≡ fail why
Fails-step elsewhere here there skip own share why h t e = h e
Fails-step (unreadable w) here there skip own share why h t e = e
Fails-step exact here there skip own share why h t e = absurd (cc)
Fails-step rival here there skip own share why h t e = t e

find_route-fails :
    (ip : Netip) (e : TunEntry) (foreign mine shared : Bool) (routes : List IpRoute)
    (why : EntryError)
    → find_route ip e foreign routes ≡ fail why
    → owns_from ip e mine shared routes ≡ fail why
unfolding find_route owns_from
find_route-fails ip e foreign mine shared [] why h = absurd (cc)
find_route-fails ip e foreign mine shared (r ∷ routes) why h =
    Fails-step (match_route ip e r) (find_route ip e foreign routes) (find_route ip e true routes)
      (owns_from ip e mine shared routes) (owns_from ip e true shared routes)
      (owns_from ip e mine true routes) why (find_route-fails ip e foreign mine shared routes why)
      (find_route-fails ip e true mine true routes why) h

-- For a route of ours and any list of routes that ownsPrefix reads without an error, find reads it
-- too; it says that the entry is present exactly if ownsPrefix says that it is ours, and that a
-- foreign one is in its place exactly if ownsPrefix says that it is not ours and the prefix is
-- shared.
pub find-owns_prefix :
    (ip : Netip) (e : TunEntry) (routes : List IpRoute) (rules : List IpRule) (mine shared : Bool)
    → e.is_rule ≡ false
    → owns_prefix ip e routes ≡ ok (mine, shared)
    → find ip e routes rules ≡ ok (mine, not mine && shared)
unfolding find owns_prefix
find-owns_prefix ip e routes rules mine shared r h =
    rw r (elim (Outcome-cases (find_route ip e false routes)) [
      | inl (why, f) ↦ absurd (cc (h, find_route-fails ip e false false false routes why f))
      | inr (found, f) ↦ ground (
        arith,
        rw f at (find_route-Found ip e false routes),
        rw h at (owns_from-Owned ip e false false routes),
      )
    ])

-- what find says without an error of an entry whose presence the lists show
pub find_present :
    (ip : Netip) (e : TunEntry) (routes : List IpRoute) (rules : List IpRule) (found : Bool × Bool)
    → find ip e routes rules ≡ ok found
    → found.0 ≡ (if e.is_rule then any (same_rule e) rules else any (spells ip e) routes)
unfolding find
find_present ip e routes rules found h = elim (Bool-cases e.is_rule) [
  | inl q ↦ ground (arith, find_rule-any e rules)
  | inr q ↦ ground (arith, rw (rw q at h) at (find_route-Found ip e false routes))
]
