-- ===== src/Xraycfg/BindTests.antt =====
-- A config whose direct outbounds are bound, for internal/xraycfg/mark.go.
use xray_runner.Prelude.{ℕ, ◌-◌, ◌&&◌, ◌≡◌, refl, codes, leb, [], if◌then◌else◌}
use xray_runner.Prelude.Outcome.{Outcome, ok, fail}
use xray_runner.Prelude.Int.{ℤ}
use xray_runner.Xraycfg.Json.{
  Json, null, object, array, text, number, Items, item, no_items, Members, member, no_members, put,
}
use xray_runner.Xraycfg.Bind.{DirectBind, BindError, repeated_key, bind_direct_outbounds}
use xray_runner.Xraycfg.Escapes.{Rebounds, bind_direct_outbounds-Rebounds}

abbrev to_upper : ℕ → ℕ
to_upper c = if leb 97 c && leb c 122 then c - 32 else c

abbrev marked : DirectBind
marked = record { mark = ℤ.pos 255; interface = [] }

-- the panel's own mark, in other letters
abbrev own_sockopt : Json
own_sockopt = object (member (codes "Mark") (number (ℤ.pos 1)) no_members)

abbrev direct : Members
direct = member (codes "protocol") (text (codes "freedom")) (
    member (codes "StreamSettings") (object (member (codes "sockOpt") own_sockopt no_members))
      no_members)

abbrev proxy : Members
proxy = member (codes "protocol") (text (codes "vless")) no_members

abbrev outbounds : Items
outbounds = item (object direct) (item (object proxy) (item null no_items))

abbrev config : Members
config = member (codes "outbounds") (array outbounds) no_members

abbrev value_of : Outcome BindError Json → Json
value_of (ok j) = j
value_of (fail _) = null

abbrev bound : Json
bound = value_of (bind_direct_outbounds to_upper (object config) marked)

bind_direct_outbounds-Rebounds_example :
    (obs' : Items) × (bound ≡ object (put (codes "outbounds") (array obs') config))
    × Rebounds to_upper marked outbounds obs'
unfolding bind_direct_outbounds
bind_direct_outbounds-Rebounds_example =
    bind_direct_outbounds-Rebounds to_upper marked config outbounds bound refl refl refl

-- two spellings of one key
two_protocols :
    bind_direct_outbounds to_upper
      (object (
        member
          (codes "outbounds")
          (array (item (object (member (codes "Protocol") null proxy)) no_items))
          no_members))
      marked
    ≡ fail (repeated_key (codes "protocol"))
unfolding bind_direct_outbounds
two_protocols = refl
