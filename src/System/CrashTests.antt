-- ===== src/System/CrashTests.antt =====
-- Runs that are killed, and what the next one makes of their records.
use xray_runner.Prelude.{
  implies, Option, ℕ, Bool, true, false, ◌&&◌, ◌||◌, ◌≡◌, refl, none, some, List, [], ◌∷◌, any,
  ◌==◌,
}
use xray_runner.System.Entries.{prefix_eq, Prefix, Netip, TunEntry}
use xray_runner.System.Teardown.{NetOps, Routing, disable_tun_routing}
use xray_runner.System.Setup.{half_entry, enable_tun_routing}
use xray_runner.System.Host.{entry_eq, Lawful}
use xray_runner.System.Mortal.{Journaling}
use xray_runner.System.Journal.{restore_routes}
use xray_runner.System.Leftovers.{left_to_recover, crash-recovery}
use xray_runner.System.Recover.{has_entry, Journal, Recovery, take_records}
use xray_runner.System.Takeover.{listed, is_left, names, take_records_lem}
use xray_runner.System.Tests.{v4, few, cfg, no_marks, narrow_host, has_server, narrow_laws, server}

-- a host with a journal beside it
abbrev recorded : {K : Type 0} → NetOps K → NetOps (K × List TunEntry)
recorded ops = record {
  route_get = λ a k. ops.route_get a k.0;
  list_routes = λ v6 k. ops.list_routes v6 k.0;
  list_rules = λ k. ops.list_rules k.0;
  link_addrs = λ dev k. ops.link_addrs dev k.0;
  add = λ e k. ((ops.add e k.0).0, ((ops.add e k.0).1, k.1));
  del = λ e k. ((ops.del e k.0).0, ((ops.del e k.0).1, k.1));
  journal_routes = λ entries k. (k.0, entries);
}

abbrev desk : NetOps (Bool × List TunEntry)
desk = recorded narrow_host

abbrev desk_has : TunEntry → Bool × List TunEntry → Bool
desk_has m k = has_server m k.0

abbrev desk_journal : Bool × List TunEntry → List TunEntry
desk_journal k = k.1

desk_laws : Lawful few desk desk_has
desk_laws = record {
  add_done = λ e m k h. narrow_laws.add_done e m k.0 h;
  add_failed = λ e m k why h. narrow_laws.add_failed e m k.0 why h;
  del_done = λ e m k h. narrow_laws.del_done e m k.0 h;
  del_failed = λ e m k why h. narrow_laws.del_failed e m k.0 why h;
  journal_keeps = λ entries m k. refl;
  lists_routes = λ e routes k r h. narrow_laws.lists_routes e routes k.0 r h;
  lists_rules = λ e rules k r h. narrow_laws.lists_rules e rules k.0 r h;
}

desk_writes : Journaling desk desk_journal
desk_writes = record {
  writes = λ entries k. refl;
  add_keeps = λ e k. refl;
  del_keeps = λ e k. refl;
}

abbrev after_kill : Routing (Bool × List TunEntry)
after_kill = left_to_recover few desk desk_journal no_marks false cfg (false, []) 2

-- the first entry is there then
left_behind : after_kill.host.0 ≡ true
unfolding enable_tun_routing entry_eq xray_runner.System.Teardown.remove_one
    xray_runner.System.Entries.find
left_behind = refl

settles :
    (disable_tun_routing few desk
      (left_to_recover few desk desk_journal no_marks false cfg (false, []) 2)).0
    ≡ none
unfolding enable_tun_routing entry_eq xray_runner.System.Teardown.remove_one
    xray_runner.System.Entries.find
settles = refl

-- the teardown of the next run takes it away
crash-recovery_example :
    implies
      (desk_has server
        (disable_tun_routing few desk
          (left_to_recover few desk desk_journal no_marks false cfg (false, []) 2)).1.host)
      (desk_has server (false, []))
    ≡ true
crash-recovery_example =
    crash-recovery few desk desk_has desk_journal no_marks false cfg (false, []) 2 server desk_laws
      desk_writes settles

abbrev half : TunEntry
half = half_entry "xray-tun" (v4 0x80000000 1)

abbrev dead_journal : Journal
dead_journal = record {
  boot = "b";
  pid = 7;
  start = 1;
  routes = [];
  kill_switch = true;
  split = false;
  split_home = [];
}

abbrev nothing_yet : Recovery
nothing_yet = record {
  installed = [];
  found_routes = [];
  kill_switch = false;
  split = false;
  split_home = [];
  taken = [];
}

abbrev only_eight : ℕ → ℕ → Bool
only_eight pid start = pid == 8

abbrev found_records : List (ℕ × Option Journal)
found_records =
    (7, some dead_journal) ∷ (8, some (record dead_journal { pid = 8 })) ∷ (9, none) ∷ []

take_records_lem_example :
    (implies
        (listed 8 (take_records few "b" only_eight found_records nothing_yet).taken)
        (false || any (λ x. (x.0 == 8) && is_left "b" only_eight x.0 x.1) found_records)
      ≡ true)
    × (implies
          (has_entry (take_records few "b" only_eight found_records nothing_yet).installed half)
          (false || any (λ x. names few "b" only_eight half x.0 x.1) found_records)
        ≡ true)
take_records_lem_example = take_records_lem few "b" only_eight found_records nothing_yet 8 half

-- the one that still runs stays
leaves_alive : (take_records few "b" only_eight found_records nothing_yet).taken ≡ 7 ∷ 9 ∷ []
unfolding take_records restore_routes
leaves_alive = refl
