-- ===== src/Xraycfg/Unlisted.antt =====
-- ApplySplitRouting (internal/xraycfg/split.go) keeps unlisted connections out of the tunnel.
use xray_runner.Prelude.{
  ℕ, Bool, true, false, some, String, List, [], ◌∷◌, ◌++◌, str_eq, mem_str, Runes, any, ◌≡◌, inl,
  inr, arith, eq_iff, refl, Bool-cases, ◌∙◌,
}
use xray_runner.Prelude.Outcome.{ok, split_chain}
use xray_runner.Xraycfg.Config.{Outbound, Rule, Config}
use xray_runner.Xraycfg.Split.{
  local_tags, direct_tag, default_tag, rewrite_rules, ensure_direct, all_locals,
  apply_split_routing, direct_outbound_tag, direct_outbound, finish_rules, catch_all_rule,
  default_rules,
}
use xray_runner.Xraycfg.Routing.{outbound, route}
use xray_runner.Xraycfg.SplitSafe.{FoldSound, rewrite_rules-Harmless, route-Harmless}
use xray_runner.Xraycfg.LocalTags.{
  leads_locally, local_tags-lead, local_tags-ne, direct_tag-mem, leads-append, leads-last,
  freedom_is_local,
}

all_locals-ne : (os : List Outbound) → mem_str "" (all_locals os) ≡ false
unfolding all_locals
all_locals-ne os = ground (arith, local_tags-ne os)

direct_is_local :
    (os : List Outbound) → leads_locally (os ++ direct_outbound ∷ []) direct_outbound_tag ≡ true
direct_is_local os =
    leads-last os direct_outbound direct_outbound_tag (freedom_is_local "freedom" refl)

-- every tag taken for local names a local outbound of the result
all_locals-lead :
    (os : List Outbound) (t : String)
    → mem_str t (all_locals os) ≡ true
    → leads_locally (ensure_direct os).1 t ≡ true
unfolding all_locals ensure_direct
all_locals-lead os t h = elim (Bool-cases (str_eq (direct_tag os) "")) [
  | inl e ↦ ground (
    arith,
    leads-append os (direct_outbound ∷ []) t,
    local_tags-lead os t,
    direct_is_local os,
    eq_iff t direct_outbound_tag,
  )
  | inr e ↦ rw e (local_tags-lead os t (rw e at h))
]

ensure_direct-mem : (os : List Outbound) → mem_str (ensure_direct os).0 (all_locals os) ≡ true
unfolding all_locals ensure_direct
ensure_direct-mem os = elim (Bool-cases (str_eq (direct_tag os) "")) [
  | inl e ↦ rw e
  | inr e ↦ rw e (direct_tag-mem os e)
]

module _ {ℓ} {R : Type ℓ} (fold : ℕ → ℕ) (plain networks : R) where
  finish_ok :
      (processes : List Runes) (fallback : String) (direct : String × List Outbound)
      (rewritten : List (Rule R) × Bool) (out : Config R)
      → finish_rules fold plain networks processes fallback direct rewritten ≡ ok out
      → (out.outbounds ≡ direct.1)
        × (out.rules
            ≡ rewritten.0
              ++ (default_rules fold plain networks processes fallback
                  ++ catch_all_rule fold plain networks direct.0 ∷ []))
  unfolding finish_rules
  finish_ok processes fallback direct rewritten out h = ground arith

  pub apply_ok :
      (processes : List Runes) (cfg out : Config R)
      → apply_split_routing fold plain networks processes cfg ≡ ok out
      → (rules : List (Rule R)) × (tunnel : Bool) × (rewrite_rules fold processes
            (all_locals cfg.outbounds)
            cfg.rules
          ≡ ok (rules, tunnel))
        × (out.outbounds ≡ (ensure_direct cfg.outbounds).1)
        × (out.rules
            ≡ rules
              ++ (default_rules fold plain networks processes
                    (default_tag cfg.outbounds (local_tags cfg.outbounds))
                  ++ catch_all_rule fold plain networks (ensure_direct cfg.outbounds).0 ∷ []))
  unfolding apply_split_routing
  apply_ok [] cfg out h = absurd (cc)
  apply_ok (p ∷ ps) cfg out h =
      let (pair, e, k) =
        split_chain _ (rewrite_rules fold (p ∷ ps) (all_locals cfg.outbounds) cfg.rules) h in
      let (o, r) =
        finish_ok (p ∷ ps) (default_tag cfg.outbounds (local_tags cfg.outbounds))
          (ensure_direct cfg.outbounds) pair out k in
      (pair.0, pair.1, e, o, r)

  module _ (holds : R → Bool) (named : Runes → Bool) where
    last_rules :
        (processes : List Runes) (fallback direct : String)
        → any named processes ≡ false
        → holds networks ≡ true
        → route holds named (
            default_rules fold plain networks processes fallback
            ++ catch_all_rule fold plain networks direct ∷ [])
          ≡ some (outbound direct)
    unfolding route
    last_rules processes fallback direct u n = elim (Bool-cases (str_eq fallback "")) [
      | inl e ↦ ground arith
      | inr e ↦ ground arith
    ]

    -- A connection of a program that is not listed, and that the catch-all's networks cover, is
    -- sent to an outbound that answers without the tunnel, whatever the rules of the panel say.
    pub unlisted_stays_out :
        (processes : List Runes) (cfg out : Config R)
        → FoldSound fold named
        → any named processes ≡ false
        → holds networks ≡ true
        → apply_split_routing fold plain networks processes cfg ≡ ok out
        → (tag : String) × (route holds named out.rules ≡ some (outbound tag))
          × (leads_locally out.outbounds tag ≡ true)
    unlisted_stays_out processes cfg out sound unlisted covered h =
        let (rules, tunnel, e, os, rs) = apply_ok processes cfg out h in
        let fallback = default_tag cfg.outbounds (local_tags cfg.outbounds) in
        let (direct, _) = ensure_direct cfg.outbounds in
        let harmless =
          rewrite_rules-Harmless fold holds named sound processes unlisted
            (all_locals cfg.outbounds) (all_locals-ne cfg.outbounds) cfg.rules rules tunnel e in
        rw (rs, os)
          (elim (route-Harmless fold holds named sound processes unlisted (all_locals cfg.outbounds)
            (all_locals-ne cfg.outbounds) rules
            (default_rules fold plain networks processes fallback
              ++ catch_all_rule fold plain networks direct ∷ [])
            harmless) [
              | inl k ↦ (
                direct,
                k ∙ last_rules processes fallback direct unlisted covered,
                all_locals-lead cfg.outbounds direct (ensure_direct-mem cfg.outbounds),
              )
              | inr (tag, k, m) ↦ (tag, k, all_locals-lead cfg.outbounds tag m)
            ])
