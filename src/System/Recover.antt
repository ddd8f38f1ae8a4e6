-- ===== src/System/Recover.antt =====
-- RecoverJournal of internal/system/journal.go: the records of runs that died without their
-- teardown are taken over and taken down.
use xray_runner.Prelude.{
  ℕ, Bool, true, false, not, ◌&&◌, ◌||◌, Option, none, some, String, List, [], ◌∷◌, ◌++◌, any, ◌==◌,
  str_eq, if◌then◌else◌,
}
use xray_runner.Prelude.Outcome.{Outcome, fail, ok}
use xray_runner.System.Entries.{Netip, TunEntry}
use xray_runner.System.Teardown.{NetOps, Routing, RouteError, disable_tun_routing}
use xray_runner.System.Host.{entry_eq}
use xray_runner.System.Journal.{RouteRecord, restore_routes}

-- journal; SplitHome is an association list of a process and its cgroup
pub record Journal : Type 0 where
  pub boot : String
  pub pid : ℕ
  pub start : ℕ
  pub routes : List RouteRecord
  pub kill_switch : Bool
  pub split : Bool
  pub split_home : List (String × String)

-- the variables of RecoverJournal's loop, with `installed`
pub record Recovery : Type 0 where
  pub installed : List TunEntry
  pub found_routes : List RouteRecord
  pub kill_switch : Bool
  pub split : Bool
  pub split_home : List (String × String)
  pub taken : List ℕ

-- slices.Contains
abbrev pub has_entry : List TunEntry → TunEntry → Bool
has_entry entries e = any (entry_eq e) entries

unfoldable pub add_missing : List TunEntry → List TunEntry → List TunEntry
add_missing installed [] = installed
add_missing installed (e ∷ routes) =
    add_missing (if has_entry installed e then installed else installed ++ (e ∷ [])) routes

abbrev pub give_up : ℕ → Recovery → Recovery
give_up pid r = record r { taken = r.taken ++ (pid ∷ []) }

abbrev pub take_over : ℕ → Journal → List TunEntry → Recovery → Recovery
take_over pid j routes r = record {
  installed = add_missing r.installed routes;
  found_routes = r.found_routes ++ j.routes;
  kill_switch = r.kill_switch || j.kill_switch;
  split = r.split || j.split;
  split_home = if j.split then j.split_home ++ r.split_home else r.split_home;
  taken = r.taken ++ (pid ∷ []);
}

abbrev pub take_restored : ℕ → Journal → Recovery → Option (List TunEntry) → Recovery
take_restored pid j r none = give_up pid r
take_restored pid j r (some routes) = take_over pid j routes r

-- one round of the loop, on a record that decodes
unfoldable pub take_journal : Netip → String → (ℕ → ℕ → Bool) → ℕ → Journal → Recovery → Recovery
unfolding add_missing
take_journal ip boot process_alive pid j r =
    if not (j.pid == pid) || not (str_eq j.boot boot)
    then give_up pid r
    else if process_alive j.pid j.start
    then r
    else take_restored pid j r (restore_routes ip j.routes)

unfoldable pub take_record :
    Netip → String → (ℕ → ℕ → Bool) → ℕ → Option Journal → Recovery → Recovery
unfolding take_journal
take_record ip boot process_alive pid none r = give_up pid r
take_record ip boot process_alive pid (some j) r = take_journal ip boot process_alive pid j r

-- the loop, over the records in the order that the map yields them; a record that does not
-- decode is `none`
unfoldable pub take_records :
    Netip → String → (ℕ → ℕ → Bool) → List (ℕ × Option Journal) → Recovery → Recovery
unfolding take_record
take_records ip boot process_alive [] r = r
take_records ip boot process_alive (x ∷ records) r =
    take_records ip boot process_alive records (take_record ip boot process_alive x.0 x.1 r)

unfoldable pub found_nothing : Recovery → Bool
found_nothing r =
    (elim r.found_routes [ [] ↦ true | _ ∷ _ ↦ false ]) && not r.kill_switch && not r.split

-- the store of the records, the process's own record, and the teardowns of the kill switch and of
-- the split; a number is what the system said
pub record JournalOps (K : Type 0) : Type 0 where
  pub all_records : K → Outcome ℕ (List (ℕ × Option Journal))
  pub boot_id : K → Outcome ℕ String
  pub process_alive : ℕ → ℕ → Bool
  pub note : List TunEntry → Bool → Bool → K → K
  pub drop : ℕ → K → K
  pub recover_kill_switch : K → Option ℕ × K
  pub recover_split : List (String × String) → K → Option ℕ × K

pub data RecoverError : Type 0 where
  not_read : ℕ → RecoverError
  routes_left : RouteError → RecoverError
  kill_switch_left split_left : ℕ → RecoverError

-- the loop that drops the records
unfoldable pub drop_taken : {K : Type 0} → JournalOps K → ℕ → Bool → List ℕ → K → K
drop_taken js self nothing [] k = k
drop_taken js self nothing (pid ∷ taken) k =
    drop_taken js self nothing taken (if (pid == self) && not nothing then k else js.drop pid k)

abbrev pub error_of : {E : Type 0} → (E → RecoverError) → Option E → List RecoverError
error_of wrap none = []
error_of wrap (some why) = wrap why ∷ []

-- the three teardowns, of what was found
unfoldable pub take_down_found :
    {K : Type 0}
    → Netip
    → NetOps K
    → JournalOps K
    → Recovery
    → Routing K
    → List RecoverError × Routing K
unfolding disable_tun_routing
take_down_found {K = K} ip ops js r s =
    let (routes_err, s) : Option RouteError × Routing K = (elim r.found_routes [
      | [] ↦ (none, s)
      | _ ∷ _ ↦ disable_tun_routing ip ops s
    ]) in
    let (kill_err, k) : Option ℕ × K =
      (if r.kill_switch then js.recover_kill_switch s.host else (none, s.host)) in
    let (split_err, k2) : Option ℕ × K =
      (if r.split then js.recover_split r.split_home k else (none, k)) in
    (
      error_of routes_left routes_err
          ++ error_of kill_switch_left kill_err
          ++ error_of split_left split_err,
      record { host = k2; installed = s.installed },
    )

-- RecoverJournal, with a store of records; no errors is Go's nil
unfoldable pub recover_journal :
    {K : Type 0} → Netip → NetOps K → JournalOps K → ℕ → Routing K → List RecoverError × Routing K
unfolding take_records found_nothing drop_taken take_down_found
recover_journal ip ops js self s = elim (js.all_records s.host) [
  | fail why ↦ (not_read why ∷ [], s)
  | ok [] ↦ ([], s)
  | ok (x ∷ more) ↦ elim (js.boot_id s.host) [
    | fail why ↦ (not_read why ∷ [], s)
    | ok boot ↦
        let r = take_records ip boot js.process_alive (x ∷ more) (record {
          installed = s.installed;
          found_routes = [];
          kill_switch = false;
          split = false;
          split_home = [];
          taken = [];
        }) in
        let nothing = found_nothing r in
        let noted = if nothing then s.host else js.note r.installed r.kill_switch r.split s.host in
        let k = drop_taken js self nothing r.taken noted in
        if nothing
        then ([], record { host = k; installed = r.installed })
        else take_down_found ip ops js r (record { host = k; installed = r.installed })
  ]
]
