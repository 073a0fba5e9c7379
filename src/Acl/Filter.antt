-- ===== src/Acl/Filter.antt =====
-- The filter in the pipeline of packets: easytier/src/peers/acl_filter.rs. What pnet reads of a
-- packet is a parameter, and what the route says of the groups of a peer an argument.
pub mod Extracted
pub mod Answers
use mathlib.Core.Logic.{ite}
use neo_easy_tier_deamon.Prelude.{
  ℕ, ◌≡◌, Bool, true, false, ◌||◌, ◌&&◌, not, Option, none, some, List, [], ◌∷◌, if◌then◌else◌,
  ◌==◌, length,
}
use neo_easy_tier_deamon.Prelude.Text.{Text}
use neo_easy_tier_deamon.Acl.{
  Protocol, Protocol-discrete, unspecified, tcp, udp, icmp, icmpv6, Action, ChainType, inbound,
  outbound, forward, IpAddr, v4, v6, CidrLib, Acl, PacketInfo, AclResult,
}
use neo_easy_tier_deamon.Acl.State.{
  AclState, AclStatKey, AclStatType, from_chain_and_action, increment_stat, Clock,
}
use neo_easy_tier_deamon.Acl.Process.{process_packet}
use neo_easy_tier_deamon.Acl.Entry.{Config, config_of, new_with_shared_state}

-- What is read of an IP header: the addresses, the number of the next protocol, and the payload.
pub record IpView : Type 0 where
  pub source : ℕ
  pub destination : ℕ
  pub next_protocol : ℕ
  pub payload : Text

pub record PnetLib : Type 0 where
  -- The version, and the header as one of IPv4.
  pub ipv4_packet : Text → Option (ℕ × IpView)
  pub ipv6_packet : Text → Option IpView
  pub tcp_ports : Text → Option (ℕ × ℕ)
  pub udp_ports : Text → Option (ℕ × ℕ)

-- `PacketType::Data`
abbrev pub data_packet : ℕ
data_packet = 1

-- What the filter looks at of a packet: the type in its header where it has one, its payload, and the
-- groups of the two peers.
pub record ZcPacket : Type 0 where
  pub packet_type : Option ℕ
  pub payload : Text
  pub src_groups : List Text
  pub dst_groups : List Text

pub record AclFilter (V4 V6 : Type 0) : Type 0 where
  pub config : Config V4 V6
  pub state : AclState
  pub acl_enabled : Bool
  pub quic_udp_port : ℕ

unfoldable pub new : {V4 V6 : Type 0} → CidrLib V4 V6 → AclFilter V4 V6
unfolding config_of new_with_shared_state
new lib = record {
  config = config_of lib (record { chains = none });
  state = new_with_shared_state none none none;
  acl_enabled = false;
  quic_udp_port = 0;
}

-- The old processor's connections, buckets and counters are kept.
unfoldable pub reload_rules :
    {V4 V6 : Type 0} → CidrLib V4 V6 → Option Acl → AclFilter V4 V6 → AclFilter V4 V6
unfolding config_of new_with_shared_state
reload_rules lib none f = record f { acl_enabled = false }
reload_rules lib (some acl) f = record f {
  config = config_of lib acl;
  state =
      new_with_shared_state (some f.state.conn_track) (some f.state.rate_limiters)
        (some f.state.stats);
  acl_enabled = true;
}

-- The ports, where the next protocol has them; `none` where its header cannot be read.
abbrev pub some_ports : Option (ℕ × ℕ) → Option (Option ℕ × Option ℕ)
some_ports none = none
some_ports (some (src, dst)) = some (some src, some dst)

abbrev pub acl_protocol : ℕ → Protocol
acl_protocol n =
    if n == 6
    then tcp
    else if n == 17
    then udp
    else if n == 1
    then icmp
    else if n == 58
    then icmpv6
    else unspecified

abbrev pub ports_of : PnetLib → IpView → Option (Option ℕ × Option ℕ)
ports_of lib v =
    if v.next_protocol == 6
    then some_ports (lib.tcp_ports v.payload)
    else if v.next_protocol == 17
    then some_ports (lib.udp_ports v.payload)
    else some (none, none)

abbrev pub info_of :
    ZcPacket → IpAddr → IpAddr → ℕ → Option (Option ℕ × Option ℕ) → Option PacketInfo
info_of z src dst next none = none
info_of z src dst next (some (src_port, dst_port)) = some (record {
  src_ip = src;
  dst_ip = dst;
  src_port = src_port;
  dst_port = dst_port;
  protocol = acl_protocol next;
  packet_size = length z.payload;
  src_groups = z.src_groups;
  dst_groups = z.dst_groups;
})

abbrev pub info_of_v6 : PnetLib → ZcPacket → Option IpView → Option PacketInfo
info_of_v6 lib z none = none
info_of_v6 lib z (some v) =
    info_of z (v6 v.source) (v6 v.destination) v.next_protocol (ports_of lib v)

abbrev pub info_of_view : PnetLib → ZcPacket → Option (ℕ × IpView) → Option PacketInfo
info_of_view lib z none = none
info_of_view lib z (some (version, v)) =
    if version == 4
    then info_of z (v4 v.source) (v4 v.destination) v.next_protocol (ports_of lib v)
    else if version == 6
    then info_of_v6 lib z (lib.ipv6_packet z.payload)
    else none

unfoldable pub extract_packet_info : PnetLib → ZcPacket → Option PacketInfo
extract_packet_info lib z = info_of_view lib z (lib.ipv4_packet z.payload)

abbrev pub stat_type : Action → AclStatType
stat_type Action.allow = AclStatType.allowed
stat_type Action.drop = AclStatType.dropped
stat_type Action.noop = AclStatType.noop

abbrev pub packets_key : Action → AclStatKey
packets_key Action.allow = AclStatKey.packets_allowed
packets_key Action.drop = AclStatKey.packets_dropped
packets_key Action.noop = AclStatKey.packets_noop

-- The counters; the log is left out.
unfoldable pub handle_acl_result : AclResult → ChainType → AclState → AclState
unfolding increment_stat
handle_acl_result r chain_type s = increment_stat AclStatKey.packets_total (
    increment_stat (from_chain_and_action chain_type AclStatType.total) (
      increment_stat (from_chain_and_action chain_type (stat_type r.action))
        (increment_stat (packets_key r.action) s)))

abbrev pub ip_eq : IpAddr → IpAddr → Bool
ip_eq (v4 a) (v4 b) = a == b
ip_eq (v6 a) (v6 b) = a == b
ip_eq (v4 a) (v6 b) = false
ip_eq (v6 a) (v4 b) = false

abbrev pub or_unspecified : Option ℕ → ℕ
or_unspecified none = 0
or_unspecified (some a) = a

-- An address is one of this node; where it has none, the unspecified address.
abbrev pub is_mine : Option ℕ → Option ℕ → IpAddr → Bool
is_mine my_ipv4 my_ipv6 ip =
    ip_eq ip (v4 (or_unspecified my_ipv4)) || ip_eq ip (v6 (or_unspecified my_ipv6))

abbrev pub port_is : Option ℕ → ℕ → Bool
port_is none q = false
port_is (some p) q = p == q

unfoldable pub check_is_quic_packet : ℕ → PacketInfo → Option ℕ → Option ℕ → Bool
unfolding Protocol-discrete
check_is_quic_packet quic_port p my_ipv4 my_ipv6 =
    ite (Protocol-discrete p.protocol udp) true false
    && (not (quic_port == 0)
        && ((port_is p.dst_port quic_port && is_mine my_ipv4 my_ipv6 p.dst_ip)
            || (port_is p.src_port quic_port && is_mine my_ipv4 my_ipv6 p.src_ip)))

abbrev pub chain_type_of : Bool → Option ℕ → Option ℕ → PacketInfo → ChainType
chain_type_of is_in my_ipv4 my_ipv6 p =
    if is_in then (if is_mine my_ipv4 my_ipv6 p.dst_ip then inbound else forward) else outbound

abbrev pub is_passed : Action → Bool
is_passed Action.allow = true
is_passed Action.noop = true
is_passed Action.drop = false

module _ {V4 V6 : Type 0} where
  unfoldable pub judge :
      PacketInfo → ChainType → Clock → AclFilter V4 V6 → Option (Bool × AclFilter V4 V6)
  unfolding handle_acl_result process_packet
  judge p chain_type t f = elim (process_packet f.config p chain_type t f.state) [
    | none ↦ none
    | some (r, s) ↦ some (is_passed r.action, record f { state = handle_acl_result r chain_type s })
  ]

  -- What is done with a packet that could be read, or not.
  unfoldable pub answer_to :
      Option PacketInfo
      → Bool
      → Option ℕ
      → Option ℕ
      → Clock
      → AclFilter V4 V6
      → Option (Bool × AclFilter V4 V6)
  unfolding check_is_quic_packet judge
  answer_to none is_in my_ipv4 my_ipv6 t f = some (true, f)
  answer_to (some p) is_in my_ipv4 my_ipv6 t f =
      if check_is_quic_packet f.quic_udp_port p my_ipv4 my_ipv6
      then some (true, f)
      else judge p (chain_type_of is_in my_ipv4 my_ipv6 p) t f

  -- `none` is a panic, of `unwrap` where there is no header.
  unfoldable pub process_packet_with_acl :
      PnetLib
      → ZcPacket
      → Bool
      → Option ℕ
      → Option ℕ
      → Clock
      → AclFilter V4 V6
      → Option (Bool × AclFilter V4 V6)
  unfolding extract_packet_info answer_to
  process_packet_with_acl lib z is_in my_ipv4 my_ipv6 t f =
      if not f.acl_enabled then some (true, f) else elim z.packet_type [
        | none ↦ none
        | some k ↦
            if k == data_packet
            then answer_to (extract_packet_info lib z) is_in my_ipv4 my_ipv6 t f
            else some (true, f)
      ]
