-- ===== src/System/Restored.antt =====
-- The routes of a record of internal/system/journal_linux.go, read back.
use xray_runner.Prelude.{
  ◌&&◌, sym, ltb, &&_split, ap, ◌∙◌, Bool, true, false, ◌≡◌, refl, Option, none, some, String, List,
  [], ◌∷◌, map, All, arith, Bool-cases, inl, inr, if◌then◌else◌,
}
use xray_runner.System.Entries.{prefix_eq, Prefix, Netip, TunEntry}
use xray_runner.System.Host.{bare, prefix_eq_iff}
use xray_runner.System.Journal.{
  RouteRecord, entry_record, is_ours, journal_what, read_rule, read_route, read_checked,
  and_restored, restore_route, restore_routes,
}

-- an entry as the next run reads it: as the host has it, under another name for the messages
abbrev pub as_read : TunEntry → TunEntry
as_read e = record (bare e) { what = journal_what }

abbrev pub parses_as : Option Prefix → Prefix → Bool
parses_as none p = false
parses_as (some q) p = prefix_eq q p

-- a rule with a priority, or a route that the checks let through and whose prefix the parser of
-- net/netip reads as it was printed
abbrev pub is_readable : Netip → (Prefix → String) → TunEntry → Bool
is_readable ip print e =
    if e.is_rule
    then ltb 0 e.pref
    else parses_as (ip.parse_prefix (print e.prefix)) e.prefix
      && is_ours ip e.prefix (entry_record print e)

parsed : (o : Option Prefix) (p : Prefix) → parses_as o p ≡ true → o ≡ some p
parsed none p h = absurd (cc)
parsed (some q) p h = ap some ((prefix_eq_iff q p).0 h)

read_checked_lem :
    (ip : Netip) (r : RouteRecord) (p : Prefix)
    → is_ours ip p r ≡ true
    → read_checked ip r (some p) ≡ read_route r p r.metric
read_checked_lem ip r p o = rw o refl

restore_route_lem :
    (ip : Netip) (print : Prefix → String) (e : TunEntry)
    → is_readable ip print e ≡ true
    → restore_route ip (entry_record print e) ≡ some (as_read e)
unfolding restore_route entry_record
restore_route_lem ip print e h = elim (Bool-cases e.is_rule) [
  | inl q ↦ rw q (ground (arith, rw q at h))
  | inr q ↦
      let r = entry_record print e in
      let picked : Bool → Bool = λ b.
        if b
        then ltb 0 e.pref
        else (parses_as (ip.parse_prefix (print e.prefix)) e.prefix
            && is_ours ip e.prefix (entry_record print e)) in
      let (parses, o) = &&_split _ _ (ap picked (sym q) ∙ h) in
      let p = parsed (ip.parse_prefix (print e.prefix)) e.prefix parses in
      let not_rule : r.is_rule ≡ false = rw q refl in
      let prefix : r.prefix ≡ print e.prefix = rw q refl in
      let last : read_route r e.prefix r.metric ≡ some (as_read e) = rw q refl in
      ap (λ b. if b then read_rule r.pref else read_checked ip r (ip.parse_prefix r.prefix))
        not_rule
      ∙ ap (λ t. read_checked ip r (ip.parse_prefix t)) prefix
      ∙ ap (read_checked ip r) p
      ∙ read_checked_lem ip r e.prefix o
      ∙ last
]

-- For entries each of which is a rule with a priority of at least 1, or a route that passes the
-- checks of the reader and whose prefix net/netip reads back as it printed it: what restoreRoutes
-- makes of their records are these entries, in their order, as the host has them.
pub restore_routes-map :
    (ip : Netip) (print : Prefix → String) (entries : List TunEntry)
    → All (λ e. is_readable ip print e ≡ true) entries
    → restore_routes ip (map (entry_record print) entries) ≡ some (map as_read entries)
unfolding restore_routes
restore_routes-map ip print [] h = refl
restore_routes-map ip print (e ∷ entries) (r, h) =
    ap (λ x. and_restored x (restore_routes ip (map (entry_record print) entries)))
      (restore_route_lem ip print e r)
    ∙ ap (and_restored (some (as_read e))) (restore_routes-map ip print entries h)
