-- ===== src/Service/Requests.antt =====
-- The checks that internal/service/service.go makes of a request, none of which changes its state.
use xray_runner.Prelude.{
  ℕ, zero, suc, Bool, true, false, not, ◌&&◌, ◌||◌, Option, none, some, String, List, [], ◌∷◌, ◌++◌,
  ltb, leb, ◌==◌, if◌then◌else◌, str_eq, Runes, codes, runes_eq, length, take, any,
}
use xray_runner.Prelude.Int.{ℤ, eq_ℤ, is_neg}
use xray_runner.Service.State.{Kind, Peer, Service, eq_opt}

pub data Network : Type 0 where
  tcp udp : Network

pub data RedirectError : Type 0 where
  nobody_listens : Network → RedirectError
  taken : Network → ℤ → RedirectError

-- the inner loop of redirectOwnedBy
unfoldable pub foreign_owner : ℤ → List ℤ → Option ℤ
foreign_owner uid [] = none
foreign_owner uid (o ∷ os) = if not (eq_ℤ o uid) then some o else foreign_owner uid os

abbrev is_empty {ℓ} : {A : Type ℓ} → List A → Bool
is_empty [] = true
is_empty (_ ∷ _) = false

-- one round of its outer loop
unfoldable pub check_port : ℤ → Bool → Network → List ℤ → Option RedirectError
unfolding foreign_owner
check_port uid enabling network owners =
    if is_empty owners && enabling
    then some (nobody_listens network)
    else elim (foreign_owner uid owners) [ none ↦ none | some o ↦ some (taken network o) ]

-- redirectOwnedBy; the lists are what ListenerUIDs says of the two ports
unfoldable pub redirect_owned_by :
    ℤ → Bool → (tcp_owners udp_owners : List ℤ) → Option RedirectError
unfolding check_port
redirect_owned_by uid enabling tcp_owners udp_owners =
    if eq_ℤ uid (ℤ.pos 0) then none else elim (check_port uid enabling tcp tcp_owners) [
      | none ↦ check_port uid enabling udp udp_owners
      | some e ↦ some e
    ]

-- `uid` as split and closeConns hand it on: root acts for everybody
abbrev pub acting_uid : ℤ → ℤ
acting_uid uid = if eq_ℤ uid (ℤ.pos 0) then ℤ.negsuc 0 else uid

abbrev pub max_split_names : ℕ
max_split_names = 256

-- a process name, as its bytes
abbrev pub good_name : Runes → Bool
good_name n = not (is_empty n) && leb (length n) 255 && not (any (λ b. (b == b'/') || (b == 0)) n)

pub data NamesError : Type 0 where
  not_here too_many : NamesError
  bad_name : Runes → NamesError

unfoldable pub first_bad : List Runes → Option NamesError
first_bad [] = none
first_bad (n ∷ ns) = if good_name n then first_bad ns else some (bad_name n)

-- split, up to its locks
unfoldable pub check_split : Bool → ℤ → List Runes → Option NamesError
unfolding first_bad
check_split split_over_tun uid names =
    if split_over_tun || is_neg uid
    then some not_here
    else if ltb max_split_names (length names)
    then some too_many
    else first_bad names

-- what net/url gives for an address: its scheme and host, or an error
pub record Url : Type 0 where
  pub scheme : Runes
  pub host : Runes

pub data UrlsError : Type 0 where
  too_many_urls : UrlsError
  bad_url : Runes → UrlsError

module _ (parse : Runes → Option Url) where
  unfoldable pub good_url : Runes → Bool
  good_url raw = elim (parse raw) [
    | none ↦ false
    | some u ↦
        leb (length raw) 2048
        && (runes_eq u.scheme (codes "http") || runes_eq u.scheme (codes "https"))
        && not (is_empty u.host)
  ]

  unfoldable pub first_bad_url : List Runes → Option UrlsError
  first_bad_url [] = none
  first_bad_url (raw ∷ rest) = if good_url raw then first_bad_url rest else some (bad_url raw)

  -- checkURLs: none is no error
  unfoldable pub check_urls : List Runes → Option UrlsError
  unfolding first_bad_url good_url
  check_urls urls = if ltb 16 (length urls) then some too_many_urls else first_bad_url urls

-- unicode.IsControl: the control codes below the space, and DEL up to 0x9f
abbrev pub is_control : ℕ → Bool
is_control r = ltb r 32 || (leb 127 r && ltb r 160)

unfoldable pub drop_controls : Runes → Runes
drop_controls [] = []
drop_controls (r ∷ rs) = let rest = drop_controls rs in if is_control r then rest else r ∷ rest

-- cleanTitle
unfoldable pub clean_title : Runes → Runes
unfolding drop_controls
clean_title t = let u = drop_controls t in if ltb 120 (length u) then take 120 u else u

-- queueLatest on a queue of at most `cap` updates, the oldest first, with nobody reading: when the
-- queue is full its head goes, and the loop tries again. Fuel is the number of rounds left.
unfoldable pub queue_latest {ℓ} : {A : Type ℓ} → ℕ → ℕ → List A → A → Option (List A)
queue_latest zero cap q ev = none
queue_latest (suc f) cap [] ev =
    let again = queue_latest f cap [] ev in if ltb 0 cap then some (ev ∷ []) else again
queue_latest (suc f) cap (x ∷ q) ev =
    let again = queue_latest f cap q ev in
    if ltb (length (x ∷ q)) cap then some ((x ∷ q) ++ (ev ∷ [])) else again

-- ipc.StatusReply
pub record Status : Type 0 where
  pub active : Bool
  pub kind : Option Kind
  pub title : String
  pub mine : Bool
  pub attached : Bool

abbrev pub idle_status : Status
idle_status = record { active = false; kind = none; title = ""; mine = false; attached = false }

-- status
unfoldable pub status : Peer → Service → Status
status p s = elim s.sess [
  | none ↦ idle_status
  | some i ↦
      let x = s.heap i in
      let mine = str_eq x.owner p.key in
      record {
        active = true;
        kind = some x.kind;
        title = if mine then x.title else "";
        mine = mine;
        attached = not (eq_opt x.conn none);
      }
]
