-- ===== src/App/Steady.antt =====
-- What holds of a TUN session of internal/app/session.go over all its core processes.
use xray_runner.Prelude.{
  suc, Bool, true, false, not, ◌&&◌, ◌||◌, ◌≡◌, refl, sym, ◌∙◌, ap, Option, none, some, List, [],
  ◌∷◌, ◌++◌, if◌then◌else◌, implies, if_lem, arith,
}
use xray_runner.App.Lifecycle.{
  SessionConfig, SetupError, kill_switch_failed, Attempt, Life, set_up, waits, set_up_online,
  finish_start, finish_online, after_start, after_stop,
}
use xray_runner.App.Protection.{is_claimed, wants_kill_switch, is_sound, Advances, set_up-Advances}

-- the result of bring-up is sent once, and if it is a success, then a kill switch that was asked for
-- is up from there on
abbrev pub ready_ok : Bool → List (Option SetupError) → Bool → Bool → Bool
ready_ok wanted [] sent kill = not sent
ready_ok wanted (none ∷ []) sent kill = sent && implies wanted kill
ready_ok wanted (some why ∷ []) sent kill = sent
ready_ok wanted (_ ∷ _ ∷ _) sent kill = false

abbrev pub is_steady : SessionConfig → Life → Bool
is_steady cfg l = ready_ok (wants_kill_switch cfg) l.ready l.sent l.host_kill_switch && is_claimed l

ready_ok-later :
    (wanted : Bool) (ready : List (Option SetupError)) (sent kill kill2 : Bool)
    → ready_ok wanted ready sent kill ≡ true
    → implies kill kill2 ≡ true
    → ready_ok wanted ready sent kill2 ≡ true
ready_ok-later wanted [] sent kill kill2 h k = h
ready_ok-later wanted (none ∷ []) sent kill kill2 h k = ground arith
ready_ok-later wanted (some why ∷ []) sent kill kill2 h k = h
ready_ok-later wanted (_ ∷ _ ∷ _) sent kill kill2 h k = h

sound_from :
    (cfg : SessionConfig) (l m n : Life) (f : Option SetupError)
    → m.sent ≡ l.sent
    → is_sound cfg m f n ≡ true
    → is_sound cfg l f n ≡ true
sound_from cfg l m n none s h = rw (sym s) h
sound_from cfg l m n (some why) s h = refl

Advances-after :
    (cfg : SessionConfig) (l m n : Life) (e f : Option SetupError)
    → Advances cfg l e m
    → Advances cfg m f n
    → Advances cfg l f n
Advances-after cfg l m n e f x y = record {
  same_ready = y.same_ready ∙ x.same_ready;
  same_sent = y.same_sent ∙ x.same_sent;
  same_gen = y.same_gen ∙ x.same_gen;
  same_health = y.same_health ∙ x.same_health;
  keeps_kill = ground (arith, x.keeps_kill, y.keeps_kill);
  keeps_claims = ground (arith, x.keeps_claims, y.keeps_claims);
  sound = sound_from cfg l m n f x.same_sent y.sound;
}

abbrev Online : SessionConfig → Life → Option (Option SetupError) × Life → Type 0
Online cfg l (none, m) = Advances cfg l (some kill_switch_failed) m
Online cfg l (some err, m) = Advances cfg l err m

Online-after :
    (cfg : SessionConfig) (l m : Life) (e : Option SetupError)
    (r : Option (Option SetupError) × Life)
    → Advances cfg l e m
    → Online cfg m r
    → Online cfg l r
Online-after cfg l m e (none, n) x y = Advances-after cfg l m n e (some kill_switch_failed) x y
Online-after cfg l m e (some f, n) x y = Advances-after cfg l m n e f x y

set_up_online-Online :
    (cfg : SessionConfig) (attempts : List Attempt) (l : Life)
    → Online cfg l (set_up_online cfg attempts l)
unfolding set_up_online
set_up_online-Online cfg [] l = record {
  same_ready = refl;
  same_sent = refl;
  same_gen = refl;
  same_health = refl;
  keeps_kill = ground arith;
  keeps_claims = ground arith;
  sound = refl;
}
set_up_online-Online cfg (a ∷ attempts) l =
    let x = set_up-Advances cfg l a in
    let (err, m) = set_up cfg a l in
    if_lem (Online cfg l) (not (waits err m.sent) || a.cancelled_waiting) _ _ (λ q. x)
      (λ q.
        Online-after cfg l m err (set_up_online cfg attempts m) x
          (set_up_online-Online cfg attempts m))

waits_unsent : (err : Option SetupError) → waits err false ≡ false
waits_unsent none = refl
waits_unsent (some why) = refl

-- While no result of a setup was sent, the first attempt decides: setUpOnline does not wait for
-- the network, whatever that attempt meets.
pub first_attempt_decides :
    (cfg : SessionConfig) (a : Attempt) (attempts : List Attempt) (l : Life)
    → l.sent ≡ false
    → set_up_online cfg (a ∷ attempts) l ≡ (some (set_up cfg a l).0, (set_up cfg a l).1)
unfolding set_up_online
first_attempt_decides cfg a attempts l s =
    let (err, m) = set_up cfg a l in
    let unsent : m.sent ≡ false = (set_up-Advances cfg l a).same_sent ∙ s in
    let stops : (not (waits err m.sent) || a.cancelled_waiting) ≡ true =
      ground (arith, ap (waits err) unsent, waits_unsent err) in
    ap (λ b. if b then (some err, m) else set_up_online cfg attempts m) stops

-- a setup that ended without an error: the routes are in, the core's health is watched
abbrev pub IsUp : Life → Option (Option SetupError) → Type 0
IsUp m (some none) = (m.host_routes ≡ true) × (m.health ≡ some m.gen)
IsUp m _ = Unit

abbrev pub Started : SessionConfig → Option (Option SetupError) × Life → Type 0
Started cfg r = (is_steady cfg r.1 ≡ true) × IsUp r.1 r.0

-- the one result that is sent
ready_ok-sent :
    (wanted : Bool) (ready : List (Option SetupError)) (sent kill : Bool) (err : Option SetupError)
    → ready_ok wanted ready sent kill ≡ true
    → (sent ≡ false → err ≡ none → implies wanted kill ≡ true)
    → ready_ok wanted (if sent then ready else ready ++ (err ∷ [])) true kill ≡ true
ready_ok-sent wanted [] true kill err h k = absurd (cc)
ready_ok-sent wanted [] false kill none h k = k refl refl
ready_ok-sent wanted [] false kill (some why) h k = refl
ready_ok-sent wanted (none ∷ []) true kill err h k = h
ready_ok-sent wanted (none ∷ []) false kill err h k = absurd (ground arith)
ready_ok-sent wanted (some why ∷ []) true kill err h k = refl
ready_ok-sent wanted (some why ∷ []) false kill err h k = absurd (ground arith)
ready_ok-sent wanted (_ ∷ _ ∷ _) sent kill err h k = absurd (ground arith)

sound_unsent :
    (cfg : SessionConfig) (l m : Life) (err : Option SetupError)
    → is_sound cfg l err m ≡ true
    → l.sent ≡ false
    → err ≡ none
    → implies (wants_kill_switch cfg) m.host_kill_switch ≡ true
sound_unsent cfg l m none h s e = ground arith
sound_unsent cfg l m (some why) h s e = absurd (cc)

sound_routes :
    (cfg : SessionConfig) (l m : Life) → is_sound cfg l none m ≡ true → m.host_routes ≡ true
sound_routes cfg l m h = ground arith

&&_both : (a b : Bool) → a ≡ true → b ≡ true → (a && b) ≡ true
&&_both a b h k = ground arith

finish_start-Started :
    (cfg : SessionConfig) (cancelled : Bool) (m : Life) (err : Option SetupError)
    → ready_ok (wants_kill_switch cfg) m.ready m.sent m.host_kill_switch ≡ true
    → is_claimed m ≡ true
    → (m.sent ≡ false → err ≡ none → implies (wants_kill_switch cfg) m.host_kill_switch ≡ true)
    → (err ≡ none → m.host_routes ≡ true)
    → Started cfg (finish_online cancelled (some err, m))
unfolding finish_start
finish_start-Started cfg cancelled m none r c k t = (
  &&_both _ (is_claimed m)
      (ready_ok-sent (wants_kill_switch cfg) m.ready m.sent m.host_kill_switch none r k) c,
  (t refl, refl),
)
finish_start-Started cfg cancelled m (some why) r c k t =
    if_lem (λ (x : Option SetupError × Life). Started cfg (some x.0, x.1)) cancelled (some why, m) _
      (λ q. (&&_both _ (is_claimed m) r c, tt))
      (λ q. (
        &&_both _ (is_claimed m)
            (ready_ok-sent (wants_kill_switch cfg) m.ready m.sent m.host_kill_switch (some why) r k)
            c,
        tt,
      ))

module _ (cfg : SessionConfig) (l m : Life) (err : Option SetupError)
    (x : Advances cfg l err m) where
  ready_ok-kept :
      is_steady cfg l ≡ true
      → ready_ok (wants_kill_switch cfg) m.ready m.sent m.host_kill_switch ≡ true
  ready_ok-kept h =
      ap (λ r. ready_ok (wants_kill_switch cfg) r m.sent m.host_kill_switch) x.same_ready
      ∙ ap (λ b. ready_ok (wants_kill_switch cfg) l.ready b m.host_kill_switch) x.same_sent
      ∙ ready_ok-later (wants_kill_switch cfg) l.ready l.sent l.host_kill_switch m.host_kill_switch
          (ground arith) x.keeps_kill

  claimed-kept : is_steady cfg l ≡ true → is_claimed m ≡ true
  claimed-kept h = ground (arith, x.keeps_claims)

  advanced-Started :
      (cancelled : Bool)
      → is_steady cfg l ≡ true
      → Started cfg (finish_online cancelled (some err, m))
  advanced-Started cancelled h =
      finish_start-Started cfg cancelled m err (ready_ok-kept h) (claimed-kept h)
        (λ s e. sound_unsent cfg l m err x.sound (sym x.same_sent ∙ s) e)
        (λ e. sound_routes cfg l m (ap (λ o. is_sound cfg l o m) (sym e) ∙ x.sound))

  waiting-Started : is_steady cfg l ≡ true → Started cfg (none, m)
  waiting-Started h = (&&_both _ (is_claimed m) (ready_ok-kept h) (claimed-kept h), tt)

Online-Started :
    (cfg : SessionConfig) (cancelled : Bool) (l : Life) (r : Option (Option SetupError) × Life)
    → is_steady cfg l ≡ true
    → Online cfg l r
    → Started cfg (finish_online cancelled r)
Online-Started cfg cancelled l (none, m) h x = waiting-Started cfg l m (some kill_switch_failed) x h
Online-Started cfg cancelled l (some err, m) h x = advanced-Started cfg l m err x cancelled h

pub after_start-Started :
    (cfg : SessionConfig) (attempts : List Attempt) (cancelled : Bool) (l : Life)
    → is_steady cfg l ≡ true
    → Started cfg (after_start cfg attempts cancelled l)
unfolding after_start
after_start-Started cfg attempts cancelled l h =
    let m = record l { gen = suc l.gen; failed = none } in
    Online-Started cfg cancelled m (set_up_online cfg attempts m) h
      (set_up_online-Online cfg attempts m)

pub after_stop-steady :
    (cfg : SessionConfig) (fails : Bool) (l : Life)
    → is_steady cfg l ≡ true
    → is_steady cfg (after_stop fails l).1 ≡ true
unfolding after_stop
after_stop-steady cfg true l h =
    if_lem (λ (x : Bool × Life). is_steady cfg x.1 ≡ true) (not l.tun_routed) _ _ (λ q. h) (λ q. h)
after_stop-steady cfg false l h =
    if_lem (λ (x : Bool × Life). is_steady cfg x.1 ≡ true) (not l.tun_routed) _ _ (λ q. h)
      (λ q. ground arith)
