-- ===== src/System/Entries.antt =====
-- The entries of internal/system/route_linux.go, and how they are looked up in what the kernel
-- lists.
use xray_runner.Prelude.{
  ℕ, Bool, true, false, not, ◌&&◌, ◌||◌, Option, none, some, String, List, [], ◌∷◌, ◌==◌, str_eq,
  if◌then◌else◌,
}
use xray_runner.Prelude.Outcome.{Outcome, fail, ok}

-- netip.Addr and netip.Prefix, without zones
pub record Addr : Type 0 where
  pub v6 : Bool
  pub value : ℕ

pub record Prefix : Type 0 where
  pub addr : Addr
  pub bits : ℕ

-- the parsers of net/netip
pub record Netip : Type 0 where
  pub parse_addr : String → Option Addr
  pub parse_prefix : String → Option Prefix

pub record TunEntry : Type 0 where
  pub what : String
  pub is_rule : Bool
  pub pref : ℕ
  pub v6 : Bool
  pub typ : String
  pub prefix : Prefix
  pub via : String
  pub dev : String
  pub table : String
  pub metric : ℕ

pub record IpRoute : Type 0 where
  pub dst : String
  pub gateway : String
  pub dev : String
  pub table : String
  pub metric : ℕ
  pub typ : String

pub record IpRule : Type 0 where
  pub priority : ℕ
  pub fw_mark : String
  pub fw_mask : String
  pub table : String

-- why an entry could not be looked up or removed; a number is what the system said
pub data EntryError : Type 0 where
  bad_dst : String → EntryError
  not_deleted : TunEntry → ℕ → EntryError

abbrev pub direct_table : String
direct_table = "8888"

-- fmt.Sprintf("%#x", xraycfg.DirectFwMark)
abbrev pub direct_mark_text : String
direct_mark_text = "0xff"

abbrev pub tun_metric : ℕ
tun_metric = 1024

unfoldable pub addr_eq : Addr → Addr → Bool
addr_eq a b = (if a.v6 then b.v6 else not b.v6) && (a.value == b.value)

unfoldable pub prefix_eq : Prefix → Prefix → Bool
unfolding addr_eq
prefix_eq p q = addr_eq p.addr q.addr && (p.bits == q.bits)

-- netip.IPv4Unspecified and netip.IPv6Unspecified
abbrev pub unspecified : Bool → Prefix
unspecified v6 = record { addr = record { v6 = v6; value = 0 }; bits = 0 }

-- routeType
unfoldable pub route_type : String → String
route_type s =
    if str_eq s "" || str_eq s "1" || str_eq s "unicast"
    then ""
    else if str_eq s "7" || str_eq s "unreachable"
    then "unreachable"
    else s

-- routeDst
unfoldable pub route_dst : Netip → String → Bool → Outcome EntryError Prefix
route_dst ip dst v6 =
    if str_eq dst "default" then ok (unspecified v6) else elim (ip.parse_addr dst) [
      | some a ↦ ok (record { addr = a; bits = if a.v6 then 128 else 32 })
      | none ↦ elim (ip.parse_prefix dst) [ some p ↦ ok p | none ↦ fail (bad_dst dst) ]
    ]

-- the comparison that find and ownsPrefix make once the prefix is the same
unfoldable pub same_route : TunEntry → IpRoute → Bool
unfolding route_type
same_route e r =
    str_eq (route_type r.typ) e.typ
    && str_eq r.gateway e.via
    && str_eq r.dev e.dev
    && (r.metric == e.metric)

-- what a listed route is to an entry: of another table or prefix, unreadable, the entry itself,
-- or another route in its place
pub data Match : Type 0 where
  elsewhere : Match
  unreadable : EntryError → Match
  exact rival : Match

-- one round of the loops of find and of ownsPrefix
unfoldable pub match_route : Netip → TunEntry → IpRoute → Match
unfolding route_dst prefix_eq same_route
match_route ip e r =
    if not (str_eq r.table e.table) then elsewhere else elim (route_dst ip r.dst e.v6) [
      | fail why ↦ unreadable why
      | ok p ↦
          if not (prefix_eq p e.prefix) then elsewhere else if same_route e r then exact else rival
    ]

-- the loop of find over the routes
unfoldable pub find_route :
    Netip → TunEntry → Bool → List IpRoute → Outcome EntryError (Bool × Bool)
unfolding match_route
find_route ip e foreign [] = ok (false, foreign)
find_route ip e foreign (r ∷ routes) = elim (match_route ip e r) [
  | elsewhere ↦ find_route ip e foreign routes
  | unreadable why ↦ fail why
  | exact ↦ ok (true, false)
  | rival ↦ find_route ip e true routes
]

-- the condition of find on a rule
unfoldable pub same_rule : TunEntry → IpRule → Bool
same_rule e r =
    (r.priority == e.pref)
    && str_eq r.fw_mark direct_mark_text
    && str_eq r.fw_mask ""
    && str_eq r.table direct_table

-- the loop of find over the rules
unfoldable pub find_rule : TunEntry → List IpRule → Bool
unfolding same_rule
find_rule e [] = false
find_rule e (r ∷ rules) = same_rule e r || find_rule e rules

-- find: whether the entry is present, and whether another one has its prefix
unfoldable pub find :
    Netip → TunEntry → List IpRoute → List IpRule → Outcome EntryError (Bool × Bool)
unfolding find_route find_rule
find ip e routes rules =
    if e.is_rule then ok (find_rule e rules, false) else find_route ip e false routes

-- the loop of ownsPrefix
unfoldable pub owns_from :
    Netip → TunEntry → Bool → Bool → List IpRoute → Outcome EntryError (Bool × Bool)
unfolding match_route
owns_from ip e mine shared [] = ok (mine, shared)
owns_from ip e mine shared (r ∷ routes) = elim (match_route ip e r) [
  | elsewhere ↦ owns_from ip e mine shared routes
  | unreadable why ↦ fail why
  | exact ↦ owns_from ip e true shared routes
  | rival ↦ owns_from ip e mine true routes
]

-- ownsPrefix: whether the entry is in the table, and whether another one has its prefix too
unfoldable pub owns_prefix : Netip → TunEntry → List IpRoute → Outcome EntryError (Bool × Bool)
unfolding owns_from
owns_prefix ip e routes = owns_from ip e false false routes
