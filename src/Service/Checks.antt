-- ===== src/Service/Checks.antt =====
-- The checks of a request against what they are meant to accept.
use xray_runner.Prelude.{
  ℕ, zero, suc, ◌≤◌, ◌<◌, ◌≡◌, ◌≢◌, ◌↔◌, ◌⊎◌, Bool, true, false, Option, none, some, List, [], ◌∷◌,
  ◌++◌, arith, refl, if◌then◌else◌, Runes, All, length, take, drop, ltb, length-take, Option-cases,
  runes_eq_iff, codes, inl, inr,
}
use xray_runner.Prelude.Int.{ℤ, eq_ℤ_iff, is_neg}
use xray_runner.Service.Requests.{
  redirect_owned_by, foreign_owner, check_port, check_split, first_bad, good_name, Url, good_url,
  first_bad_url, check_urls, is_control, drop_controls, clean_title, queue_latest, Network,
}

foreign_owner-none : (uid : ℤ) (os : List ℤ) → (foreign_owner uid os ≡ none) ↔ All (λ o. o ≡ uid) os
unfolding foreign_owner
foreign_owner-none uid [] = ground arith
foreign_owner-none uid (o ∷ os) = ground (arith, eq_ℤ_iff o uid, foreign_owner-none uid os)

-- the owners of one port that let a request of `uid` through
abbrev pub PortIsOwn : ℤ → Bool → List ℤ → Type 0
PortIsOwn uid enabling owners = (enabling ≡ true → owners ≢ []) × All (λ o. o ≡ uid) owners

check_port-none :
    (uid : ℤ) (enabling : Bool) (network : Network) (owners : List ℤ)
    → (check_port uid enabling network owners ≡ none) ↔ PortIsOwn uid enabling owners
unfolding check_port
check_port-none uid enabling network [] = ground (arith, foreign_owner-none uid [])
check_port-none uid enabling network (o ∷ os) = ground (arith, foreign_owner-none uid (o ∷ os))

-- For a user other than root the redirect is let through exactly if every owner of both ports is
-- that user and, when the split is going up, both ports have an owner; for root always.
pub redirect_owned_by_iff :
    (uid : ℤ) (enabling : Bool) (tcp_owners udp_owners : List ℤ)
    → (redirect_owned_by uid enabling tcp_owners udp_owners ≡ none)
      ↔ ((uid ≡ ℤ.pos 0) ⊎ (PortIsOwn uid enabling tcp_owners × PortIsOwn uid enabling udp_owners))
unfolding redirect_owned_by
redirect_owned_by_iff uid enabling tcp_owners udp_owners = ground (
  arith,
  eq_ℤ_iff uid (ℤ.pos 0),
  check_port-none uid enabling Network.tcp tcp_owners,
  check_port-none uid enabling Network.udp udp_owners,
)

first_bad-none : (ns : List Runes) → (first_bad ns ≡ none) ↔ All (λ n. good_name n ≡ true) ns
unfolding first_bad
first_bad-none [] = ground arith
first_bad-none (n ∷ ns) = ground (arith, first_bad-none ns)

-- A split request is let through exactly on a platform without split over TUN, from a peer with a
-- uid, with at most 256 names, each of 1 to 255 bytes and none of them a slash or NUL.
pub check_split_iff :
    (split_over_tun : Bool) (uid : ℤ) (names : List Runes)
    → (check_split split_over_tun uid names ≡ none) ↔ (
        (split_over_tun ≡ false)
        × (is_neg uid ≡ false)
        × (length names ≤ 256)
        × All (λ n. good_name n ≡ true) names)
unfolding check_split
check_split_iff split_over_tun uid names = ground (arith, first_bad-none names)

-- an address for a health check, by what net/url makes of it
abbrev pub IsWebUrl : Runes → Option Url → Type 0
IsWebUrl raw none = ⊥
IsWebUrl raw (some u) =
    (length raw ≤ 2048) × ((u.scheme ≡ codes "http") ⊎ (u.scheme ≡ codes "https")) × (u.host ≢ [])

module _ (parse : Runes → Option Url) where
  first_bad_url-none :
      (urls : List Runes)
      → (first_bad_url parse urls ≡ none) ↔ All (λ u. good_url parse u ≡ true) urls
  unfolding first_bad_url
  first_bad_url-none [] = ground arith
  first_bad_url-none (u ∷ urls) = ground (arith, first_bad_url-none urls)

  good_url_iff : (raw : Runes) → (good_url parse raw ≡ true) ↔ IsWebUrl raw (parse raw)
  unfolding good_url
  good_url_iff raw = elim (Option-cases (parse raw)) [
    | inl q ↦ rw (good_url, q) (ground arith)
    | inr (u, q) ↦
        rw (good_url, q)
          (ground
            (arith, runes_eq_iff u.scheme (codes "http"), runes_eq_iff u.scheme (codes "https")))
  ]

  web_urls :
      (urls : List Runes)
      → All (λ u. good_url parse u ≡ true) urls ↔ All (λ u. IsWebUrl u (parse u)) urls
  web_urls [] = ground arith
  web_urls (u ∷ urls) = ground (arith, good_url_iff u, web_urls urls)

  -- The URLs of a health check are let through exactly if there are at most 16, and each parses
  -- as one of http or https with a host, in at most 2048 bytes.
  pub check_urls_iff :
      (urls : List Runes)
      → (check_urls parse urls ≡ none) ↔ ((length urls ≤ 16) × All (λ u. IsWebUrl u (parse u)) urls)
  unfolding check_urls
  check_urls_iff urls = ground (arith, first_bad_url-none urls, web_urls urls)

-- what cleanTitle leaves
abbrev pub IsClean : Runes → Type 0
IsClean = All (λ r. is_control r ≡ false)

drop_controls-IsClean : (t : Runes) → IsClean (drop_controls t)
unfolding drop_controls
drop_controls-IsClean [] = tt
drop_controls-IsClean (r ∷ t) = ground (arith, drop_controls-IsClean t)

drop_controls_of_IsClean : (t : Runes) → IsClean t → drop_controls t ≡ t
unfolding drop_controls
drop_controls_of_IsClean [] h = refl
drop_controls_of_IsClean (r ∷ t) h = ground (arith, drop_controls_of_IsClean t)

take-IsClean : (n : ℕ) (t : Runes) → IsClean t → IsClean (take n t)
take-IsClean zero t h = tt
take-IsClean (suc n) [] h = tt
take-IsClean (suc n) (r ∷ t) h = (h.0, take-IsClean n t h.1)

-- the bound of cleanTitle, as a variable
abbrev shorten : ℕ → Runes → Runes
shorten n u = if ltb n (length u) then take n u else u

shorten_fits : (n : ℕ) (u : Runes) → IsClean u → (length (shorten n u) ≤ n) × IsClean (shorten n u)
shorten_fits n u h = ground (arith, length-take n u, take-IsClean n u h)

shorten_short : (n : ℕ) (u : Runes) → length u ≤ n → shorten n u ≡ u
shorten_short n u h = ground arith

-- A cleaned title has at most 120 runes and no control rune, and cleaning it again changes nothing.
pub clean_title_fits :
    (t : Runes)
    → (length (clean_title t) ≤ 120)
      × IsClean (clean_title t)
      × (clean_title (clean_title t) ≡ clean_title t)
unfolding clean_title
clean_title_fits t =
    let u = drop_controls t in
    let (short, clean) = shorten_fits 120 u (drop_controls-IsClean t) in
    (
      short,
      clean,
      rw (drop_controls_of_IsClean (shorten 120 u) clean) (shorten_short 120 (shorten 120 u) short),
    )

-- With room for one update, the update is queued in two rounds at most, as the newest, and only
-- the oldest one is given up, and only if the queue was full.
pub queue_latest_lem {ℓ} :
    {A : Type ℓ} (f cap : ℕ) (q : List A) (ev : A)
    → 0 < cap
    → length q ≤ cap
    → queue_latest (suc (suc f)) cap q ev
      ≡ some (if ltb (length q) cap then q ++ (ev ∷ []) else drop 1 q ++ (ev ∷ []))
unfolding queue_latest
queue_latest_lem f cap [] ev h k = ground arith
queue_latest_lem f cap (x ∷ []) ev h k = ground arith
queue_latest_lem f cap (x ∷ y ∷ q) ev h k = ground arith
