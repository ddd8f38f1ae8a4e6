-- ===== src/Xraycfg/Tests.antt =====
-- A panel config with a catch-all into the tunnel, and what the rewrites make of it.
use xray_runner.Prelude.{
  ℕ, zero, suc, Bool, true, false, some, String, List, [], ◌∷◌, Runes, ◌≡◌, inr, refl, codes,
  runes_eq, runes_eq_iff, trim_space, trim_space_idem, map, ap, ◌∙◌, sym,
}
use xray_runner.Prelude.Outcome.{ok}
use xray_runner.Xraycfg.Config.{absent, value, listed, Config, equal_fold, is_local_protocol}
use xray_runner.Xraycfg.Split.{
  local_tags, default_tag, all_locals, ensure_direct, rewrite_rules, finish_rules,
  apply_split_routing,
}
use xray_runner.Xraycfg.Routing.{outbound, route}
use xray_runner.Xraycfg.SplitSafe.{FoldSound}
use xray_runner.Xraycfg.LocalTags.{leads_locally}
use xray_runner.Xraycfg.Unlisted.{unlisted_stays_out}
use xray_runner.Xraycfg.Listed.{NamesOneProgram, or_else, listed_goes_on}
use xray_runner.Xraycfg.Bypass.{
  has_bypass_rules, first_bypasses, any_bypasses, fields_bypass, tag_bypasses, bypass_protocol,
}

abbrev no_fold : ℕ → ℕ
no_fold c = c

-- other conditions: 0 is none, 1 is "tcp,udp", 2 is a domain list of the panel
abbrev panel : Config ℕ
panel = record {
  outbounds =
      record { tag = "proxy"; protocol = "vless" }
      ∷ record { tag = "out"; protocol = "freedom" }
      ∷ [];
  rules =
      record { rest = 2; process = absent; outbound_tag = value "out"; balancer_tag = absent }
      ∷ record { rest = 1; process = absent; outbound_tag = value "proxy"; balancer_tag = absent }
      ∷ [];
}

abbrev curl : List Runes
curl = codes "curl" ∷ []

abbrev split_panel : Config ℕ
split_panel = record {
  outbounds = panel.outbounds;
  rules =
      record { rest = 2; process = absent; outbound_tag = value "out"; balancer_tag = absent }
      ∷ record {
        rest = 1;
        process = value (listed curl);
        outbound_tag = value "proxy";
        balancer_tag = absent;
      }
      ∷ record {
        rest = 0;
        process = value (listed curl);
        outbound_tag = value "proxy";
        balancer_tag = absent;
      }
      ∷ record { rest = 1; process = absent; outbound_tag = value "out"; balancer_tag = absent }
      ∷ [];
}

splits : apply_split_routing no_fold 0 1 curl panel ≡ ok split_panel
unfolding apply_split_routing rewrite_rules all_locals ensure_direct default_tag finish_rules
    is_local_protocol
splits = refl

-- a connection outside the panel's domain list
abbrev holds : ℕ → Bool
holds zero = true
holds (suc zero) = true
holds (suc (suc _)) = false

map-no_fold : (a : Runes) → map no_fold a ≡ a
map-no_fold [] = refl
map-no_fold (c ∷ a) = ap (◌∷◌ c) (map-no_fold a)

fold_eq : (a b : Runes) → equal_fold no_fold a b ≡ true → a ≡ b
fold_eq a b h = (runes_eq_iff a b).0 (rw (map-no_fold a, map-no_fold b) at h)

eq_fold : (a b : Runes) → a ≡ b → equal_fold no_fold a b ≡ true
eq_fold a b h = rw h ((runes_eq_iff (map no_fold b) (map no_fold b)).1 refl)

-- the program of this name, with or without spaces round it
abbrev program : Runes → Runes → Bool
program p n = runes_eq (trim_space n) p

program-FoldSound : (p : Runes) → FoldSound no_fold (program p)
program-FoldSound p a b h = ap (program p) (fold_eq a b h)

program-one : (p : Runes) → NamesOneProgram no_fold (program p)
program-one p = record {
  sound = program-FoldSound p;
  complete = λ a b h k.
      eq_fold (trim_space a) (trim_space b)
        ((runes_eq_iff (trim_space a) p).0 h ∙ sym ((runes_eq_iff (trim_space b) p).0 k));
  trimmed = λ a. ap (λ n. runes_eq n p) (trim_space_idem a);
}

unlisted_stays_out_example :
    (tag : String) × (route holds (program (codes "firefox")) split_panel.rules
      ≡ some (outbound tag))
    × (leads_locally split_panel.outbounds tag ≡ true)
unlisted_stays_out_example =
    unlisted_stays_out no_fold 0 1 holds (program (codes "firefox")) curl panel split_panel
      (program-FoldSound (codes "firefox")) (unfold trim_space in refl) refl splits

listed_goes_on_example :
    route holds (program (codes "curl")) split_panel.rules
    ≡ or_else (route holds (program (codes "curl")) panel.rules) (some (outbound "proxy"))
unfolding default_tag local_tags is_local_protocol
listed_goes_on_example =
    listed_goes_on no_fold 0 1 holds (program (codes "curl")) curl panel split_panel
      (program-one (codes "curl")) (unfold trim_space in refl, tt) (unfold trim_space in refl) refl
      refl (inr ("out", refl, refl), (inr ("proxy", refl, refl), tt)) splits

-- a rule of the panel sends the connection to a proxy
abbrev proxied : Config ℕ
proxied = record {
  outbounds =
      record { tag = "main"; protocol = "vless" }
      ∷ record { tag = "out"; protocol = "trojan" }
      ∷ [];
  rules =
      record { rest = 0; process = absent; outbound_tag = value "out"; balancer_tag = absent } ∷ [];
}

panel_bypasses : has_bypass_rules panel ≡ true
unfolding has_bypass_rules first_bypasses any_bypasses bypass_protocol fields_bypass tag_bypasses
panel_bypasses = refl
