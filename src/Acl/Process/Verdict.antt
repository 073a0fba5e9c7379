-- ===== src/Acl/Process/Verdict.antt =====
-- What the configuration says of a packet, with no state
-- (easytier/src/common/acl_processor.rs).
use neo_easy_tier_deamon.Prelude.{
  ℕ, ◌+◌, ◌≡◌, ◌∙◌, sym, ap, refl, Bool, true, false, ◌||◌, not, Option, none, some, List, [], ◌∷◌,
  if◌then◌else◌, inl, inr, Bool-cases,
}
use neo_easy_tier_deamon.Acl.{Protocol, unspecified, tcp, udp, icmp, icmpv6, any}
use neo_easy_tier_deamon.Acl.{
  ChainType, inbound, outbound, forward, unspecified_chain, FastLookupRule, PacketInfo, AclResult,
  AclCacheKey,
}
use neo_easy_tier_deamon.Acl.Rules.{rule_matches}
use neo_easy_tier_deamon.Acl.State.{AclState, AclCacheEntry, Clock, cache_key, port_or_zero}
use neo_easy_tier_deamon.Acl.Process.{process_rules, apply_rule, default_passed}
use neo_easy_tier_deamon.Acl.Entry.{
  Config, rule_result, rule_entry, default_result, default_entry, unsupported,
}

abbrev pub has_ports : Protocol → Bool
has_ports tcp = true
has_ports udp = true
has_ports unspecified = false
has_ports icmp = false
has_ports icmpv6 = false
has_ports any = false

abbrev pub is_some {ℓ} : {A : Type ℓ} → Option A → Bool
is_some none = false
is_some (some _) = true

-- A packet has ports where its protocol is TCP or UDP, and only there. (The key of the cache has a
-- port 0 where a packet has no port.)
abbrev pub HasPorts : PacketInfo → Type 0
HasPorts p =
    (is_some p.src_port ≡ has_ports p.protocol) × (is_some p.dst_port ≡ has_ports p.protocol)

module _ {V4 V6 : Type 0} (cfg : Config V4 V6) where
  -- The first enabled rule that matches, and its place.
  unfoldable pub find_rule :
      List (FastLookupRule V4 V6) → ℕ → PacketInfo → Option (FastLookupRule V4 V6 × ℕ)
  find_rule [] n p = none
  find_rule (rule ∷ rules) n p =
      let rest = find_rule rules (n + 1) p in
      if not rule.enabled || not (rule_matches cfg.lib rule p) then rest else some (rule, n)

  abbrev pub verdict_of : Option (FastLookupRule V4 V6 × ℕ) → PacketInfo → ChainType → AclResult
  verdict_of none p chain_type = default_result cfg chain_type
  verdict_of (some (rule, n)) p chain_type = rule_result cfg rule p

  -- The result of the first rule of the chain that matches, or of the default action.
  abbrev pub verdict : PacketInfo → ChainType → AclResult
  verdict p unspecified_chain = unsupported cfg
  verdict p inbound = verdict_of (find_rule (cfg.rules inbound) 0 p) p inbound
  verdict p outbound = verdict_of (find_rule (cfg.rules outbound) 0 p) p outbound
  verdict p forward = verdict_of (find_rule (cfg.rules forward) 0 p) p forward

  -- The entry that the cache should have, but for its time.
  abbrev pub entry_of :
      Option (FastLookupRule V4 V6 × ℕ) → PacketInfo → ChainType → ℕ → AclCacheEntry
  entry_of none p chain_type t = default_entry cfg chain_type t
  entry_of (some (rule, n)) p chain_type t = rule_entry cfg rule n p chain_type t

  abbrev pub entry_for : PacketInfo → ChainType → ℕ → AclCacheEntry
  entry_for p chain_type t = entry_of (find_rule (cfg.rules chain_type) 0 p) p chain_type t

  pub process_rules-find_rule :
      (rules : List (FastLookupRule V4 V6)) (n : ℕ) (p : PacketInfo) (c : ChainType) (t : Clock)
      (s : AclState)
      → process_rules cfg rules n p c t s ≡ elim (find_rule rules n p) [
        | none ↦ some (default_result cfg c, default_passed cfg p c t s)
        | some (rule, k) ↦ apply_rule cfg rule k p c t s
      ]
  unfolding process_rules find_rule
  process_rules-find_rule [] n p c t s = refl
  process_rules-find_rule (rule ∷ rules) n p c t s =
      elim (Bool-cases (not rule.enabled || not (rule_matches cfg.lib rule p))) [
        | inl e ↦ rw e (process_rules-find_rule rules (n + 1) p c t s)
        | inr e ↦ rw e refl
      ]

  -- The size of a packet is not looked at.
  find_rule-size :
      (rules : List (FastLookupRule V4 V6)) (n k : ℕ) (p : PacketInfo)
      → find_rule rules n (record p { packet_size = k }) ≡ find_rule rules n p
  unfolding find_rule rule_matches
  find_rule-size [] n k p = refl
  find_rule-size (rule ∷ rules) n k p = rw (find_rule-size rules (n + 1) k p)

  entry_of-size :
      (o : Option (FastLookupRule V4 V6 × ℕ)) (k : ℕ) (p : PacketInfo) (c : ChainType) (t : ℕ)
      → entry_of o (record p { packet_size = k }) c t ≡ entry_of o p c t
  unfolding rule_entry
  entry_of-size none k p c t = refl
  entry_of-size (some (rule, n)) k p c t = refl

  port_or_zero-inj :
      (a b : Option ℕ) → is_some a ≡ is_some b → port_or_zero a ≡ port_or_zero b → a ≡ b
  port_or_zero-inj none none s e = refl
  port_or_zero-inj none (some b) s e = absurd cc
  port_or_zero-inj (some a) none s e = absurd cc
  port_or_zero-inj (some a) (some b) s e = ap some e

  same_packet :
      (p q : PacketInfo) (c d : ChainType)
      → p.src_port ≡ q.src_port
      → p.dst_port ≡ q.dst_port
      → cache_key p c ≡ cache_key q d
      → p ≡ record q { packet_size = p.packet_size }
  same_packet p q c d src dst e = cc (e, src, dst)

  -- Two packets with the same key have the same entry.
  pub same_entry :
      (p q : PacketInfo) (c d : ChainType) (t : ℕ)
      → HasPorts p
      → HasPorts q
      → cache_key p c ≡ cache_key q d
      → entry_for p c t ≡ entry_for q d t
  same_entry p q c d t hp hq e =
      let protocols = ap (λ (k : AclCacheKey). has_ports k.protocol) e in
      let src =
        port_or_zero-inj p.src_port q.src_port (hp.0 ∙ (protocols ∙ sym hq.0))
          (ap (λ (k : AclCacheKey). k.src_port) e) in
      let dst =
        port_or_zero-inj p.dst_port q.dst_port (hp.1 ∙ (protocols ∙ sym hq.1))
          (ap (λ (k : AclCacheKey). k.dst_port) e) in
      let same : p ≡ record q { packet_size = p.packet_size } = same_packet p q c d src dst e in
      let chain : c ≡ d = ap (λ (k : AclCacheKey). k.chain_type) e in
      rw (same, chain)
        (rw (find_rule-size (cfg.rules d) 0 p.packet_size q)
          (entry_of-size (find_rule (cfg.rules d) 0 q) p.packet_size q d t))
