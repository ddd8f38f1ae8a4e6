-- ===== src/Service/Privacy.antt =====
-- What a user learns of another's session (internal/service/service.go, status).
use xray_runner.Prelude.{ℕ, ◌≡◌, false, some, String, List, refl, str_eq, ==_refl}
use xray_runner.Service.State.{Peer, Service}
use xray_runner.Service.Sections.{set_session}
use xray_runner.Service.Requests.{status}

-- To a user who does not own the session, status says the same whatever its title, its token, its
-- processes and the connection that holds it are, as long as one does.
pub status_private :
    (p : Peer) (s : Service) (i c d : ℕ) (title token : String) (names : List String)
    → s.sess ≡ some i
    → (s.heap i).conn ≡ some c
    → str_eq (s.heap i).owner p.key ≡ false
    → status p (
        set_session i
          (record (s.heap i) { title = title; token = token; names = names; conn = some d })
          s)
      ≡ status p s
unfolding status
status_private p s i c d title token names cur held other =
    rw (status, cur, held, ==_refl i, other) refl
