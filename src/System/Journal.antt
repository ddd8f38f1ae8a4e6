-- ===== src/System/Journal.antt =====
-- The record of a process's changes of internal/system/journal.go, with the routes of
-- internal/system/journal_linux.go, and what the next run does with the records it finds.
use xray_runner.Prelude.{
  ℕ, ◌+◌, ◌-◌, ◌*◌, ◌%◌, ◌^◌, Bool, true, false, not, ◌&&◌, ◌||◌, Option, none, some, String, List,
  [], ◌∷◌, any, all, length, leb, ltb, ◌==◌, str_eq, if◌then◌else◌, Runes, codes,
}
use xray_runner.Prelude.Int.{ℤ, pos, negsuc}
use xray_runner.System.Entries.{Prefix, Netip, TunEntry, unspecified}

pub record RouteRecord : Type 0 where
  pub is_rule : Bool
  pub pref : ℤ
  pub v6 : Bool
  pub typ : String
  pub prefix : String
  pub via : String
  pub dev : String
  pub table : String
  pub metric : ℤ

-- tunEntry.record; the argument is netip.Prefix.String
unfoldable pub entry_record : (Prefix → String) → TunEntry → RouteRecord
entry_record print e =
    if e.is_rule
    then (record {
      is_rule = true;
      pref = pos e.pref;
      v6 = false;
      typ = "";
      prefix = "";
      via = "";
      dev = "";
      table = "";
      metric = pos 0;
    })
    else (record {
      is_rule = false;
      pref = pos 0;
      v6 = e.v6;
      typ = e.typ;
      prefix = print e.prefix;
      via = e.via;
      dev = e.dev;
      table = e.table;
      metric = pos e.metric;
    })

abbrev is_digit : ℕ → Bool
is_digit c = leb 48 c && leb c 57

abbrev dev_start : ℕ → Bool
dev_start c =
    is_digit c
    || (leb 65 c && leb c 90)
    || (leb 97 c && leb c 122)
    || any (λ d. c == d) (95 ∷ 46 ∷ 58 ∷ 64 ∷ [])

-- devName
unfoldable pub is_dev_name : Runes → Bool
is_dev_name [] = false
is_dev_name (c ∷ s) = dev_start c && all (λ d. dev_start d || (d == 45)) s && leb (length s) 14

-- strconv.Atoi reads it: digits behind a sign or none, of a value that an int has
abbrev digits_value : ℕ → Runes → ℕ
digits_value n [] = n
digits_value n (c ∷ s) = digits_value (n * 10 + (c - 48)) s

abbrev is_number : ℕ → Runes → Bool
is_number top [] = false
is_number top (c ∷ s) = all is_digit (c ∷ s) && ltb (digits_value 0 (c ∷ s)) top

unfoldable pub is_int : Runes → Bool
is_int [] = false
is_int (c ∷ s) =
    if c == 45
    then is_number (2 ^ 63 + 1) s
    else if c == 43
    then is_number (2 ^ 63) s
    else is_number (2 ^ 63) (c ∷ s)

-- p == p.Masked()
unfoldable pub is_masked : Prefix → Bool
is_masked p = (p.addr.value % (2 ^ ((if p.addr.v6 then 128 else 32) - p.bits))) == 0

abbrev same_family : Bool → Bool → Bool
same_family a b = if a then b else not b

abbrev pub journal_what : String
journal_what = "journal"

-- a gateway of the family, or none
unfoldable pub is_gateway : Netip → String → Bool → Bool
is_gateway ip via v6 =
    str_eq via "" || elim (ip.parse_addr via) [ none ↦ false | some a ↦ same_family a.v6 v6 ]

-- the checks of restoreRoutes on a route whose prefix was read
unfoldable pub is_ours : Netip → Prefix → RouteRecord → Bool
unfolding is_dev_name is_int is_masked is_gateway
is_ours ip p r =
    is_masked p
    && same_family p.addr.v6 r.v6
    && is_gateway ip r.via r.v6
    && is_dev_name (codes r.dev)
    && (str_eq r.typ "" || str_eq r.typ "unreachable")
    && (str_eq r.table "" || is_int (codes r.table))

abbrev pub read_rule : ℤ → Option TunEntry
read_rule (negsuc _) = none
read_rule (pos n) =
    if n == 0
    then none
    else some (record {
      what = journal_what;
      is_rule = true;
      pref = n;
      v6 = false;
      typ = "";
      prefix = unspecified false;
      via = "";
      dev = "";
      table = "";
      metric = 0;
    })

abbrev pub read_route : RouteRecord → Prefix → ℤ → Option TunEntry
read_route r p (negsuc _) = none
read_route r p (pos n) = some (record {
  what = journal_what;
  is_rule = false;
  pref = 0;
  v6 = r.v6;
  typ = r.typ;
  prefix = p;
  via = r.via;
  dev = r.dev;
  table = r.table;
  metric = n;
})

abbrev pub read_checked : Netip → RouteRecord → Option Prefix → Option TunEntry
read_checked ip r none = none
read_checked ip r (some p) = if is_ours ip p r then read_route r p r.metric else none

-- one round of restoreRoutes
unfoldable pub restore_route : Netip → RouteRecord → Option TunEntry
restore_route ip r =
    if r.is_rule then read_rule r.pref else read_checked ip r (ip.parse_prefix r.prefix)

abbrev pub and_restored : Option TunEntry → Option (List TunEntry) → Option (List TunEntry)
and_restored none entries = none
and_restored (some e) none = none
and_restored (some e) (some entries) = some (e ∷ entries)

-- restoreRoutes
unfoldable pub restore_routes : Netip → List RouteRecord → Option (List TunEntry)
restore_routes ip [] = some []
restore_routes ip (r ∷ records) = and_restored (restore_route ip r) (restore_routes ip records)
