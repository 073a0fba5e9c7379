-- ===== src/Tests/Acl.antt =====
-- Examples of the access control. A range of addresses is one address here, a text denotes one by
-- its number, and no text has white space around it.
use mathlib.Core.List.Memᴰ
use mathlib.Core.Path.{subst}
use mathlib.Core.Logic.{ite}
use neo_easy_tier_deamon.Prelude.{
  ℕ, ◌==◌, ◌≡◌, ◌⊎◌, ◌*◌, ◌+◌, ◌%◌, ◌^◌, ◌&&◌, refl, Bool, true, false, Option, none, some, List,
  [], ◌∷◌, arith,
}
use neo_easy_tier_deamon.Prelude.Text.{Text, codes}
use neo_easy_tier_deamon.Prelude.Text.Decimal.{parse_digits, digits}
use neo_easy_tier_deamon.Prelude.Text.{split_once}
use neo_easy_tier_deamon.Acl.{
  Protocol, Action, inbound, v4, IpCidr, cidr4, CidrLib, Rule, Chain, Acl, FastLookupRule,
  PacketInfo, RateLimitKey,
}
use neo_easy_tier_deamon.Acl.Rules.{
  parse_u16, rule_matches, convert_to_fast_lookup_rule, protocol_matches, group_matches,
}
use neo_easy_tier_deamon.Acl.Rules.Unreadable.{rule_matches-unreadable}
use neo_easy_tier_deamon.Acl.State.{Clock, AclState, StatId-discrete, of_rule}
use neo_easy_tier_deamon.Acl.State.Cleanup.{second, cleanup_pass}
use neo_easy_tier_deamon.Acl.Process.{process_packet, rule_passed}
use neo_easy_tier_deamon.Acl.Entry.{config_of, new_with_shared_state, rule_result, default_result}
use neo_easy_tier_deamon.Acl.Process.Verdict.{HasPorts, verdict}
use neo_easy_tier_deamon.Acl.Process.Sound.{IsSound}
use neo_easy_tier_deamon.Acl.Process.Keep.{IsDone, is_limited}
use neo_easy_tier_deamon.Acl.Process.Correct.{process_packet-IsDone}
use neo_easy_tier_deamon.Acl.Process.Sweep.{cleanup_pass-IsSound}
use neo_easy_tier_deamon.Acl.Process.Serve.{
  AclEvent, packet, refilled, swept, expired, reloaded, IsServed, new_with_shared_state-IsServed,
}
use neo_easy_tier_deamon.Acl.Process.Highest.{Decides, AllPassed}
use neo_easy_tier_deamon.Acl.Process.Decide.{config_with, verdict-decided}
use neo_easy_tier_deamon.Acl.Process.Counts.{rule_passed-counts}
use neo_easy_tier_deamon.Acl.Filter.{IpView, PnetLib, ZcPacket, AclFilter}
use neo_easy_tier_deamon.Acl.Builder.{build, inbound_chain, tcp_rule}
use neo_easy_tier_deamon.Acl.Builder.Whitelist.{build-verdict}
use neo_easy_tier_deamon.Acl.Builder.Merged.{build-keeps_default}

abbrev address_of : Option ℕ → Option (IpCidr ℕ ℕ)
address_of none = none
address_of (some n) = some (cidr4 n)

abbrev lib : CidrLib ℕ ℕ
lib = record {
  from_str = λ s. address_of (parse_u16 s);
  contains4 = λ c a. c == a;
  contains6 = λ c a. c == a;
  trim = λ s. s;
}

abbrev limited : Rule
limited = record {
  name = codes "web";
  description = [];
  priority = 10;
  enabled = true;
  protocol = Protocol.tcp;
  ports = codes "80-90" ∷ [];
  source_ips = [];
  destination_ips = [];
  source_ports = [];
  action = Action.allow;
  rate_limit = 5;
  burst_limit = 2;
  stateful = true;
  source_groups = [];
  destination_groups = [];
}

abbrev mistyped : Rule
mistyped = record limited { priority = 20; source_ips = codes "10.0.0.x" ∷ []; ports = [] }

abbrev chain : Chain
chain = record {
  name = codes "in";
  chain_type = inbound;
  description = [];
  enabled = true;
  rules = limited ∷ [];
  default_action = Action.drop;
}

abbrev acl : Acl
acl = record { chains = some (chain ∷ []) }

abbrev request : PacketInfo
request = record {
  src_ip = v4 7;
  dst_ip = v4 8;
  src_port = some 4000;
  dst_port = some 85;
  protocol = Protocol.tcp;
  packet_size = 60;
  src_groups = [];
  dst_groups = [];
}

abbrev at : ℕ → Clock
at n = record { instant = n; unix_secs = 100 }

abbrev key : RateLimitKey
key = record { chain_type = inbound; rule_priority = 10 }

ports : HasPorts request
ports = (refl, refl)

-- A hit after a refill, a sweep that forgets the bucket with the entry, and a reload.
abbrev events : List AclEvent
events =
    packet request inbound (at 1)
    ∷ refilled key 3
    ∷ packet request inbound (at 2)
    ∷ swept (30 * second)
    ∷ packet request inbound (at (30 * second))
    ∷ expired 400
    ∷ reloaded acl
    ∷ packet request inbound (at (31 * second))
    ∷ []

new_with_shared_state-IsServed_example :
    IsServed lib (config_of lib acl) (new_with_shared_state none none none) events
new_with_shared_state-IsServed_example = new_with_shared_state-IsServed lib acl events (
  ports,
  omega arith,
  (ports, omega arith, (omega arith, (ports, omega arith, (ports, omega arith, tt)))),
)

abbrev state : AclState
state = record {
  conn_track = [];
  rate_limiters =
      (
        key,
        record {
          config = record { capacity = 2; fill_rate = 5; refill_interval_ms = 10 };
          available = 1;
          last_update = 3;
        },
      )
      ∷ [];
  rule_cache = [];
  stats = [];
  rule_stats = λ i. record { packet_count = 0; byte_count = 0 };
}

process_packet-IsDone_example :
    IsDone
      (config_of lib acl)
      (verdict (config_of lib acl) request inbound)
      (is_limited (config_of lib acl) request inbound)
      9
      (process_packet (config_of lib acl) request inbound (at 9) state)
process_packet-IsDone_example =
    process_packet-IsDone (config_of lib acl) 4 request inbound (at 9) state ports (omega arith)
      (record { cache = tt; limiters = (omega arith, tt) })

cleanup_pass-IsSound_example : IsSound (config_of lib acl) 50 (cleanup_pass 1024 50 state)
cleanup_pass-IsSound_example =
    cleanup_pass-IsSound (config_of lib acl) 4 50 1024 state (omega arith)
      (record { cache = tt; limiters = (omega arith, tt) })

verdict-decided_example :
    ((r : FastLookupRule ℕ ℕ) × Decides
        (config_with lib (chain ∷ []))
        inbound
        request
        r
        (chain ∷ [])
      × (verdict (config_with lib (chain ∷ [])) request inbound
          ≡ rule_result (config_with lib (chain ∷ [])) r request))
    ⊎ (AllPassed (config_with lib (chain ∷ [])) inbound request (chain ∷ [])
        × (verdict (config_with lib (chain ∷ [])) request inbound
            ≡ default_result (config_with lib (chain ∷ [])) inbound))
verdict-decided_example = verdict-decided lib (chain ∷ []) request inbound (λ e. cc)

rule_matches-unreadable_example :
    rule_matches lib (convert_to_fast_lookup_rule lib mistyped) request ≡ (
      protocol_matches lib mistyped.protocol request.protocol
      && (group_matches request.src_groups mistyped.source_groups
          && group_matches request.dst_groups mistyped.destination_groups))
unfolding parse_u16 parse_digits
rule_matches-unreadable_example = rule_matches-unreadable lib mistyped request (refl, tt) tt tt tt

abbrev fast : FastLookupRule ℕ ℕ
fast = convert_to_fast_lookup_rule lib limited

rule_passed-counts_example :
    let times : ℕ = ite (StatId-discrete (of_rule inbound 0) (of_rule inbound 0)) 2 0 in
    let after =
      (rule_passed (config_of lib acl) fast 0 request inbound (at 9) state).rule_stats
        (of_rule inbound 0) in
    (after.packet_count ≡ (0 + times) % 2 ^ 64) × (after.byte_count ≡ (0 + times * 60) % 2 ^ 64)
unfolding convert_to_fast_lookup_rule
rule_passed-counts_example =
    rule_passed-counts (config_of lib acl) fast 0 request inbound (at 9) state (of_rule inbound 0)
      (omega arith) (omega arith)

abbrev web_ports : List Text
web_ports = codes "80-90" ∷ codes "443" ∷ []

abbrev whitelisted : Acl
whitelisted = record { chains = some (inbound_chain (tcp_rule 1000 web_ports ∷ []) ∷ []) }

build-verdict_example : (verdict (config_of lib whitelisted) request inbound).action ≡ Action.allow
unfolding parse_u16 parse_digits split_once build digits
build-verdict_example = build-verdict lib (λ s n e. refl) web_ports [] whitelisted request refl

-- A chain that is not enabled and lets everything in.
abbrev disabled : Chain
disabled = record chain { enabled = false; rules = []; default_action = Action.allow }

abbrev merged : List Chain
merged = disabled ∷ inbound_chain (tcp_rule 1000 web_ports ∷ []) ∷ []

abbrev query : PacketInfo
query = record request { protocol = Protocol.udp; dst_port = some 53 }

only_tcp :
    (q : Rule)
    → q ≡ tcp_rule 1000 web_ports
    → rule_matches lib (convert_to_fast_lookup_rule lib q) query ≡ true
    → ⊥
unfolding rule_matches convert_to_fast_lookup_rule
only_tcp q e fits =
    let same : ◌≡◌ {A = Bool} false true =
      subst (λ q. rule_matches lib (convert_to_fast_lookup_rule lib q) query ≡ true) e fits in
    cc

build-keeps_default_example : (verdict (config_with lib merged) query inbound).action ≡ Action.allow
unfolding parse_u16 parse_digits split_once build digits config_of
build-keeps_default_example =
    build-keeps_default lib disabled [] merged web_ports [] query refl refl (
      λ on same q applies. absurd (cc on),
      (λ on same q applies. only_tcp q (Memᴰ.eq_of_singleton applies.0.0) applies.1, tt),
    )

-- What is read of a packet with the four bytes of its protocol, addresses and port.
abbrev view_of : Text → Option (ℕ × IpView)
view_of [] = none
view_of (c ∷ s) = some (4, record { source = 7; destination = 8; next_protocol = c; payload = s })

abbrev ports_in : Text → Option (ℕ × ℕ)
ports_in [] = none
ports_in (c ∷ s) = some (4000, c)

abbrev pnet : PnetLib
pnet = record {
  ipv4_packet = view_of;
  ipv6_packet = λ s. none;
  tcp_ports = ports_in;
  udp_ports = ports_in;
}

abbrev wire : ZcPacket
wire = record { packet_type = some 1; payload = 6 ∷ 85 ∷ []; src_groups = []; dst_groups = [] }

abbrev filter : AclFilter ℕ ℕ
filter = record { config = config_of lib acl; state = state; acl_enabled = true; quic_udp_port = 0 }
