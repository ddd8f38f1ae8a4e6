-- ===== src/Xraycfg/LocalTags.antt =====
-- The tags that ApplySplitRouting (internal/xraycfg/split.go) takes for local ones.
use xray_runner.Prelude.{
  Bool, true, false, ◌&&◌, String, List, [], ◌∷◌, ◌++◌, str_eq, mem_str, any, ◌≡◌, arith, refl,
  str_eq_refl, str_eq_comm,
}
use xray_runner.Xraycfg.Config.{Outbound, is_local_protocol}
use xray_runner.Xraycfg.Split.{local_tags, direct_tag}

-- an outbound of this tag answers without the tunnel
abbrev pub leads_locally : List Outbound → String → Bool
leads_locally os tag = any (λ o. str_eq o.tag tag && is_local_protocol o.protocol) os

pub local_tags-lead :
    (os : List Outbound) (t : String) → mem_str t (local_tags os) ≡ true → leads_locally os t ≡ true
unfolding local_tags
local_tags-lead [] t h = cc
local_tags-lead (o ∷ os) t h = ground (arith, local_tags-lead os t, str_eq_comm t o.tag)

pub local_tags-ne : (os : List Outbound) → mem_str "" (local_tags os) ≡ false
unfolding local_tags
local_tags-ne [] = refl
local_tags-ne (o ∷ os) = ground (arith, local_tags-ne os, str_eq_comm "" o.tag)

pub freedom_is_local : (p : String) → str_eq p "freedom" ≡ true → is_local_protocol p ≡ true
unfolding is_local_protocol
freedom_is_local p h = rw h

pub direct_tag-mem :
    (os : List Outbound)
    → str_eq (direct_tag os) "" ≡ false
    → mem_str (direct_tag os) (local_tags os) ≡ true
unfolding direct_tag local_tags
direct_tag-mem [] h = absurd (ground arith)
direct_tag-mem (o ∷ os) h =
    ground (arith, direct_tag-mem os, str_eq_refl o.tag, freedom_is_local o.protocol)

pub leads-append :
    (os more : List Outbound) (t : String)
    → leads_locally os t ≡ true
    → leads_locally (os ++ more) t ≡ true
leads-append [] more t h = cc
leads-append (o ∷ os) more t h = ground (arith, leads-append os more t)

pub leads-last :
    (os : List Outbound) (o : Outbound) (t : String)
    → (str_eq o.tag t && is_local_protocol o.protocol) ≡ true
    → leads_locally (os ++ o ∷ []) t ≡ true
leads-last [] o t h = ground arith
leads-last (x ∷ os) o t h = ground (arith, leads-last os o t)
