-- ===== src/Updater/Transport.antt =====
-- What internal/updater/updater.go lets an update come over: the first URL of a request and every
-- redirect after it. A host is read by net.ParseIP and folded by the table of letter case, both
-- arguments.
use xray_runner.Prelude.{
  ℕ, Bool, true, ◌&&◌, Option, none, some, String, List, [], ◌∷◌, length, not, leb, str_eq,
  if◌then◌else◌, Runes, codes,
}
use xray_runner.Xraycfg.Config.{equal_fold}

pub record Url : Type 0 where
  pub scheme : String
  pub hostname : Runes
  -- the rest of it
  pub rest : String

pub data TransportError : Type 0 where
  not_https : Url → TransportError
  too_many_redirects : TransportError
  downgrade : Url → TransportError
  redirected : TransportError → TransportError

abbrev pub max_redirects : ℕ
max_redirects = 10

module _ (fold : ℕ → ℕ) (is_loopback_ip : Runes → Bool) where
  unfoldable pub is_loopback_host : Runes → Bool
  is_loopback_host host =
      if equal_fold fold host (codes "localhost") then true else is_loopback_ip host

  -- checkTransport; `none` is no error
  unfoldable pub check_transport : Url → Option TransportError
  unfolding is_loopback_host
  check_transport u =
      if str_eq u.scheme "https"
      then none
      else if str_eq u.scheme "http" && is_loopback_host u.hostname
      then none
      else some (not_https u)

  -- checkRedirect; the requests so far are `last` and, newest first, `earlier`
  unfoldable pub check_redirect : Url → Url → List Url → Option TransportError
  unfolding check_transport
  check_redirect req last earlier =
      if leb max_redirects (length (last ∷ earlier))
      then some too_many_redirects
      else if str_eq last.scheme "https" && not (str_eq req.scheme "https")
      then some (downgrade req)
      else elim (check_transport req) [ some e ↦ some (redirected e) | none ↦ none ]

  -- how http.Client follows redirects to the given targets: the requests made, newest first, and
  -- why it stopped
  unfoldable pub follow : Url → List Url → List Url → List Url × Option TransportError
  unfolding check_redirect
  follow last earlier [] = (last ∷ earlier, none)
  follow last earlier (u ∷ targets) = elim (check_redirect u last earlier) [
    | some e ↦ (last ∷ earlier, some e)
    | none ↦ follow u (last ∷ earlier) targets
  ]

  -- newGet, and the client on its request
  unfoldable pub new_get : Url → List Url → List Url × Option TransportError
  unfolding follow check_transport
  new_get first targets = elim (check_transport first) [
    | some e ↦ ([], some e)
    | none ↦ follow first [] targets
  ]
