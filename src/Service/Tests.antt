-- ===== src/Service/Tests.antt =====
-- The guarantees of the service on a small life of it, and tests of its checks.
use xray_runner.Prelude.{
  ℕ, ◌||◌, ◌≡◌, ◌↔◌, ◌⊎◌, true, false, Option, Runes, none, some, List, [], ◌∷◌, refl, codes,
  if◌then◌else◌, ltb,
}
use xray_runner.Prelude.Int.{ℤ}
use xray_runner.Service.State.{Peer, armed}
use xray_runner.Service.Sections.{resume, set_session}
use xray_runner.Service.Privacy.{status_private}
use xray_runner.Service.Requests.{status, Url}
use xray_runner.Service.Threads.{
  succeeded, failed_dirty, finish_at, initial, Action, resume_by, detach_by, start_tun, enable_by,
  fire, callback, close_begin, teardown, proceed, tun_ends, step, run,
}
use xray_runner.Service.Invariant.{mem, Inv}
use xray_runner.Service.Interleavings.{run-Inv}
use xray_runner.Service.Guarantees.{
  runs_split, rules_iff_split, never_abandoned, holder_is_owner, resume_iff,
}
use xray_runner.Service.Endings.{IsGone, ending, orphan_ends, stale_timer}

abbrev ann : Peer
ann = record { key = "uid:1000"; uid = ℤ.pos 1000 }

abbrev bob : Peer
bob = record { key = "uid:1001"; uid = ℤ.pos 1001 }

-- connection 7 is bob's
abbrev who : ℕ → Peer
who c = if ltb c 7 then ann else bob

abbrev go : Action
go = proceed (ℤ.pos 1000 ∷ []) (ℤ.pos 1000 ∷ []) (some "t1") succeeded

abbrev split_life : List Action
split_life = enable_by 1 ("curl" ∷ []) ∷ go ∷ go ∷ []

-- a split that went up, and lost its connection
abbrev lost_life : List Action
lost_life = enable_by 1 ("curl" ∷ []) ∷ go ∷ go ∷ detach_by 1 ∷ []

run-Inv_example : Inv who (run who lost_life initial)
run-Inv_example = run-Inv who lost_life

rules_iff_split_example :
    (run who split_life initial).split_up
    ≡ (runs_split (run who split_life initial).svc || (run who split_life initial).left_up)
rules_iff_split_example = rules_iff_split who split_life (unfold run in refl)

split_goes_up : (run who split_life initial).split_up ≡ true
unfolding run
split_goes_up = refl

never_abandoned_example :
    (((run who lost_life initial).svc.heap 0).stopping ≡ false)
    × ((((run who lost_life initial).svc.heap 0).grace ≡ armed)
        ⊎ (mem 0 (run who lost_life initial).callbacks ≡ true))
never_abandoned_example =
    never_abandoned who lost_life 0 (unfold run in refl) (unfold run in refl) (unfold run in refl)

holder_is_owner_example :
    ((who 1).key ≡ ((run who split_life initial).svc.heap 0).owner)
    × ((run who split_life initial).svc.log_to ≡ some 1)
holder_is_owner_example =
    holder_is_owner who split_life 0 1 (unfold run in refl) (unfold run in refl)

abbrev go_bob : Action
go_bob = proceed (ℤ.pos 1001 ∷ []) [] (some "t3") succeeded

resume_iff_example : ((resume who 2 "t1" (run who lost_life initial).svc).1 ≡ true) ↔ (
    (((run who lost_life initial).svc.heap 0).stopping ≡ false)
    × ((run who lost_life initial).svc.closing ≡ false)
    × (((run who lost_life initial).svc.heap 0).owner ≡ (who 2).key)
    × (((run who lost_life initial).svc.heap 0).token ≡ "t1"))
resume_iff_example = resume_iff who 2 0 "t1" (run who lost_life initial).svc (unfold run in refl)

orphan_ends_example :
    IsGone
      (run who (fire 0 ∷ callback 0 ∷ ending 0 failed_dirty none) (run who lost_life initial))
      0
orphan_ends_example =
    orphan_ends who lost_life 0 failed_dirty none (unfold run in refl) (unfold run in refl)
      (unfold run in refl)

abbrev closing_life : List Action
closing_life = start_tun 1 "home" (some "t2") ∷ close_begin ∷ teardown ∷ go ∷ tun_ends 0 none ∷ []

abbrev stale_life : List Action
stale_life = start_tun 1 "home" (some "t2") ∷ detach_by 1 ∷ fire 0 ∷ resume_by 2 "t2" ∷ []

stale_timer_example :
    (((step who (detach_by 2) (run who stale_life initial)).svc.heap 0).grace ≡ armed)
    × ((step who (callback 0) (step who (detach_by 2) (run who stale_life initial))).op
        ≡ some (finish_at 0))
stale_timer_example =
    stale_timer who (run who stale_life initial) 0 2 (unfold run in refl) (unfold run in refl)
      (unfold run in refl) (unfold run in refl) (unfold run in refl)

-- bob asks while ann's connection 1 holds her split
status_private_example :
    status bob (
      set_session 0
        (record ((run who split_life initial).svc.heap 0) {
          title = "work";
          token = "t9";
          names = "mail" ∷ [];
          conn = some 2;
        })
        (run who split_life initial).svc)
    ≡ status bob (run who split_life initial).svc
unfolding run
status_private_example =
    status_private bob (run who split_life initial).svc 0 1 2 "work" "t9" ("mail" ∷ []) refl refl
      refl

-- every address is https with a host
abbrev parse_https : Runes → Option Url
parse_https raw = some (record { scheme = codes "https"; host = raw })
