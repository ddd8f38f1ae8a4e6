-- ===== src/Updater/SafeTransport.antt =====
-- Where the requests of internal/updater/updater.go can go.
use xray_runner.Prelude.{
  ℕ, ◌≤◌, ◌≡◌, ◌⊎◌, inl, inr, Bool, true, none, List, [], ◌∷◌, length, any, All, str_eq, Runes,
  arith, Option-cases,
}
use xray_runner.Updater.Transport.{
  Url, max_redirects, is_loopback_host, check_transport, check_redirect, follow, new_get,
}

abbrev pub is_https : Url → Bool
is_https u = str_eq u.scheme "https"

-- once a request went over https, every later one does; newest first
abbrev pub NoDowngrade : List Url → Type 0
NoDowngrade [] = Unit
NoDowngrade (u ∷ earlier) = (any is_https earlier ≡ true → is_https u ≡ true) × NoDowngrade earlier

module _ (fold : ℕ → ℕ) (is_loopback_ip : Runes → Bool) where
  abbrev pub IsSafe : Url → Type 0
  IsSafe u =
      (is_https u ≡ true)
      ⊎ ((str_eq u.scheme "http" ≡ true) × (is_loopback_host fold is_loopback_ip u.hostname ≡ true))

  check_transport-IsSafe : (u : Url) → check_transport fold is_loopback_ip u ≡ none → IsSafe u
  unfolding check_transport
  check_transport-IsSafe u h = ground arith

  abbrev pub AreSafe : List Url → Type 0
  AreSafe us = (length us ≤ max_redirects) × All IsSafe us × NoDowngrade us

  hop-AreSafe :
      (u last : Url) (earlier : List Url)
      → check_redirect fold is_loopback_ip u last earlier ≡ none
      → AreSafe (last ∷ earlier)
      → AreSafe (u ∷ last ∷ earlier)
  unfolding check_redirect check_transport
  hop-AreSafe u last earlier q (len, safe, down) =
      (ground arith, (check_transport-IsSafe u (ground arith), safe), (ground arith, down))

  follow-AreSafe :
      (last : Url) (earlier targets : List Url)
      → AreSafe (last ∷ earlier)
      → AreSafe (follow fold is_loopback_ip last earlier targets).0
  unfolding follow
  follow-AreSafe last earlier [] h = h
  follow-AreSafe last earlier (u ∷ targets) h =
      elim (Option-cases (check_redirect fold is_loopback_ip u last earlier)) [
        | inr (e, q) ↦ rw (follow, q) h
        | inl q ↦
            rw (follow, q)
              (follow-AreSafe u (last ∷ earlier) targets (hop-AreSafe u last earlier q h))
      ]

  -- Whatever redirects the servers answer with, there are at most ten requests, each goes over
  -- https or over plain http to a loopback host, and after one over https all are.
  pub new_get-AreSafe :
      (first : Url) (targets : List Url) → AreSafe (new_get fold is_loopback_ip first targets).0
  unfolding new_get
  new_get-AreSafe first targets = elim (Option-cases (check_transport fold is_loopback_ip first)) [
    | inr (e, q) ↦ rw (new_get, q) (omega arith, tt, tt)
    | inl q ↦
        rw (new_get, q)
          (follow-AreSafe first [] targets
            (omega arith, (check_transport-IsSafe first q, tt), (λ h. absurd (cc), tt)))
  ]
