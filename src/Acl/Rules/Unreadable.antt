-- ===== src/Acl/Rules/Unreadable.antt =====
-- Rules with texts that cannot be read (easytier/src/common/acl_processor.rs).
use neo_easy_tier_deamon.Prelude.{
  ℕ, true, some, ◌≡◌, ◌&&◌, ◌∙◌, ap, refl, Option, none, List, [], ◌∷◌,
}
use neo_easy_tier_deamon.Prelude.Text.{Text}
use neo_easy_tier_deamon.Acl.{CidrLib, Rule, PacketInfo}
use neo_easy_tier_deamon.Acl.Rules.{
  filter_map, push, parse_port_range, convert_to_fast_lookup_rule, rule_matches, protocol_matches,
  port_matches, group_matches,
}

abbrev pub NoneRead {ℓ} : {A : Type ℓ} → (Text → Option A) → List Text → Type ℓ
NoneRead f [] = Unit
NoneRead f (s ∷ ss) = (f s ≡ none) × NoneRead f ss

filter_map-NoneRead {ℓ} :
    {A : Type ℓ} (f : Text → Option A) (ss : List Text) → NoneRead f ss → filter_map f ss ≡ []
filter_map-NoneRead f [] h = refl
filter_map-NoneRead f (s ∷ ss) (e, h) =
    ap (λ o. push o (filter_map f ss)) e ∙ filter_map-NoneRead f ss h

any_port : (port : Option ℕ) → port_matches port [] ≡ true
any_port none = refl
any_port (some port) = refl

module _ {V4 V6 : Type 0} (lib : CidrLib V4 V6) where
  -- A rule of which no address and no port can be read matches a packet from and to any address and
  -- port: only the protocol and the groups are left to compare.
  pub rule_matches-unreadable :
      (r : Rule) (p : PacketInfo)
      → NoneRead lib.from_str r.source_ips
      → NoneRead lib.from_str r.destination_ips
      → NoneRead (parse_port_range lib) r.source_ports
      → NoneRead (parse_port_range lib) r.ports
      → rule_matches lib (convert_to_fast_lookup_rule lib r) p ≡ (
          protocol_matches lib r.protocol p.protocol
          && (group_matches p.src_groups r.source_groups
              && group_matches p.dst_groups r.destination_groups))
  unfolding convert_to_fast_lookup_rule rule_matches
  rule_matches-unreadable r p a b c d =
      rw
        (
          filter_map-NoneRead lib.from_str r.source_ips a,
          filter_map-NoneRead lib.from_str r.destination_ips b,
          filter_map-NoneRead (parse_port_range lib) r.source_ports c,
          filter_map-NoneRead (parse_port_range lib) r.ports d,
          any_port p.src_port,
          any_port p.dst_port,
        )
        refl
