-- ===== src/Xraycfg/Config.antt =====
-- A core config as the rewrites of internal/xraycfg read it: the outbounds and the routing rules
-- after encoding/json has decoded them. A field is absent, not of the type that the code asks
-- for, or a value; what the code never looks into is carried along.
use xray_runner.Prelude.{
  ℕ, Bool, ◌||◌, Option, none, some, String, List, [], map, str_eq, Runes, runes_eq, split_runes,
}

pub data Field {ℓ} (A : Type ℓ) : Type ℓ where
  absent malformed : Field A
  value : A → Field A

-- outboundInfo
pub record Outbound : Type 0 where
  pub tag : String
  pub protocol : String

-- what stringList finds under a key: a list, or one text
pub data Strings : Type 0 where
  listed : List Runes → Strings
  single : Runes → Strings

-- A routing rule; `rest` holds its other conditions.
pub record Rule {ℓ} (R : Type ℓ) : Type ℓ where
  pub rest : R
  pub process : Field Strings
  pub outbound_tag : Field String
  pub balancer_tag : Field String

pub record Config {ℓ} (R : Type ℓ) : Type ℓ where
  pub outbounds : List Outbound
  pub rules : List (Rule R)

-- strings.EqualFold over the table of simple case folding
abbrev pub equal_fold : (ℕ → ℕ) → Runes → Runes → Bool
equal_fold fold a b = runes_eq (map fold a) (map fold b)

-- stringList, on a key that is there
unfoldable pub string_list : Field Strings → Option (List Runes)
string_list absent = some []
string_list malformed = none
string_list (value (listed l)) = some l
string_list (value (single s)) = some (split_runes b',' s)

-- isLocalProtocol
unfoldable pub is_local_protocol : String → Bool
is_local_protocol p = str_eq p "freedom" || str_eq p "blackhole" || str_eq p "dns"
