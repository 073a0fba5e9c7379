-- ===== src/Acl/Filter/Answers.antt =====
-- What the filter answers (easytier/src/peers/acl_filter.rs).
use neo_easy_tier_deamon.Prelude.{ℕ, ◌≡◌, ◌≢◌, Bool, true, false, Option, none, some, ◌⊎◌}
use neo_easy_tier_deamon.Acl.{ChainType, PacketInfo}
use neo_easy_tier_deamon.Acl.Process.Verdict.{verdict}
use neo_easy_tier_deamon.Acl.Process.Sound.{IsSound}
use neo_easy_tier_deamon.Acl.Process.Keep.{is_limited}
use neo_easy_tier_deamon.Acl.Filter.{
  PnetLib, ZcPacket, AclFilter, data_packet, extract_packet_info, check_is_quic_packet,
  chain_type_of, is_passed,
}

module _ {V4 V6 : Type 0} where
  -- Why a packet passes with no look at the rules.
  abbrev pub Unjudged : PnetLib → ZcPacket → Option ℕ → Option ℕ → AclFilter V4 V6 → Type 0
  Unjudged lib z my_ipv4 my_ipv6 f =
      ((f.acl_enabled ≡ false) ⊎ ((k : ℕ) × (z.packet_type ≡ some k) × (k ≢ data_packet)))
      ⊎ ((extract_packet_info lib z ≡ none)
          ⊎ ((p : PacketInfo) × (extract_packet_info lib z ≡ some p)
              × (check_is_quic_packet f.quic_udp_port p my_ipv4 my_ipv6 ≡ true)))

  -- The answer follows the verdict, or is a drop by the rate limit of the rule that decides.
  abbrev pub Follows : PacketInfo → ChainType → AclFilter V4 V6 → Bool → Type 0
  Follows p c f passed =
      (passed ≡ is_passed (verdict f.config p c).action)
      ⊎ ((is_limited f.config p c ≡ true) × (passed ≡ false))

  -- The filter has answered at `t`, and is sound and configured as before.
  pub record IsAnswered (lib : PnetLib) (z : ZcPacket) (is_in : Bool) (my_ipv4 my_ipv6 : Option ℕ)
      (t : ℕ) (f : AclFilter V4 V6) (o : Option (Bool × AclFilter V4 V6)) : Type 0 where
    pub passed : Bool
    pub after : AclFilter V4 V6
    pub returned : o ≡ some (passed, after)
    pub why :
        (Unjudged lib z my_ipv4 my_ipv6 f × (passed ≡ true) × (after ≡ f))
        ⊎ ((p : PacketInfo) × (extract_packet_info lib z ≡ some p)
            × Follows p (chain_type_of is_in my_ipv4 my_ipv6 p) f passed)
    pub sound : IsSound f.config t after.state
    pub same_config : after.config ≡ f.config
