-- ===== src/Service/Preservation.antt =====
-- Every action keeps the invariant.
use xray_runner.Prelude.{ℕ, inl, inr, Option, String, arith, eq_iff, Option-cases}
use xray_runner.Service.State.{Peer}
use xray_runner.Service.Threads.{
  System, run_section, resume_by, detach_by, start_tun, tun_ends, fire, close_begin,
}
use xray_runner.Service.Invariant.{Inv}

module _ (peer : ℕ → Peer) (y : System) (v : Inv peer y) where
  pub resume-Inv : (c : ℕ) (token : String) → Inv peer (run_section peer (resume_by c token) y)
  unfolding run_section
  resume-Inv c token = elim (Option-cases y.svc.sess) [
    | inl e ↦ ground arith
    | inr (i, e) ↦ ground (arith, eq_iff (y.svc.heap i).owner (peer c).key)
  ]

  pub detach-Inv : (c : ℕ) → Inv peer (run_section peer (detach_by c) y)
  unfolding run_section
  detach-Inv c = ground arith

  pub fire-Inv : (i : ℕ) → Inv peer (run_section peer (fire i) y)
  unfolding run_section
  fire-Inv i = ground arith

  pub close_begin-Inv : Inv peer (run_section peer close_begin y)
  unfolding run_section
  close_begin-Inv = ground arith

  pub start_tun-Inv :
      (c : ℕ) (title : String) (token : Option String)
      → Inv peer (run_section peer (start_tun c title token) y)
  unfolding run_section
  start_tun-Inv c title token = ground arith

  pub tun_ends-Inv : (i : ℕ) (err : Option String) → Inv peer (run_section peer (tun_ends i err) y)
  unfolding run_section
  tun_ends-Inv i err = ground arith
