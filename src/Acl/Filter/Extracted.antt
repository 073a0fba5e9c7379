-- ===== src/Acl/Filter/Extracted.antt =====
-- What the filter extracts of a packet (easytier/src/peers/acl_filter.rs).
use mathlib.Core.Path.{subst}
use neo_easy_tier_deamon.Prelude.{
  ℕ, ◌≡◌, ◌∙◌, sym, true, false, Option, none, some, ◌==◌, arith, inl, inr, ◌⊎◌, Bool-cases,
  if_true, if_false,
}
use neo_easy_tier_deamon.Acl.{IpAddr, PacketInfo}
use neo_easy_tier_deamon.Acl.Process.Verdict.{HasPorts, has_ports, is_some}
use neo_easy_tier_deamon.Acl.Filter.{
  IpView, PnetLib, ZcPacket, some_ports, acl_protocol, ports_of, info_of, info_of_v6, info_of_view,
  extract_packet_info,
}

module _ (lib : PnetLib) (z : ZcPacket) where
  -- The ports that are read are there where the protocol has ports.
  abbrev Fits : ℕ → Option (Option ℕ × Option ℕ) → Type 0
  Fits next none = Unit
  Fits next (some (a, b)) =
      (is_some a ≡ has_ports (acl_protocol next)) × (is_some b ≡ has_ports (acl_protocol next))

  some_ports-Fits :
      (next : ℕ) (o : Option (ℕ × ℕ))
      → has_ports (acl_protocol next) ≡ true
      → Fits next (some_ports o)
  some_ports-Fits next none h = tt
  some_ports-Fits next (some (a, b)) h = (sym h, sym h)

  with_ports : (n : ℕ) → ((n == 6) ≡ true) ⊎ ((n == 17) ≡ true) → has_ports (acl_protocol n) ≡ true
  with_ports n h = ground arith

  no_ports : (n : ℕ) → (n == 6) ≡ false → (n == 17) ≡ false → has_ports (acl_protocol n) ≡ false
  no_ports n a b = ground arith

  ports_of-Fits : (v : IpView) → Fits v.next_protocol (ports_of lib v)
  ports_of-Fits v =
      let next = v.next_protocol in
      elim (Bool-cases (next == 6)) [
        | inl y ↦
            subst (Fits next) (sym (if_true _ _ _ y))
              (some_ports-Fits next (lib.tcp_ports v.payload) (with_ports next (inl y)))
        | inr y ↦ subst (Fits next) (sym (if_false _ _ _ y)) (elim (Bool-cases (next == 17)) [
          | inl y' ↦
              subst (Fits next) (sym (if_true _ _ _ y'))
                (some_ports-Fits next (lib.udp_ports v.payload) (with_ports next (inr y')))
          | inr y' ↦
              subst (Fits next) (sym (if_false _ _ _ y'))
                (sym (no_ports next y y'), sym (no_ports next y y'))
        ])
      ]

  unwrap : (a b : PacketInfo) → some a ≡ some b → a ≡ b
  unwrap a b e = cc

  info_of-HasPorts :
      (src dst : IpAddr) (next : ℕ) (o : Option (Option ℕ × Option ℕ)) (p : PacketInfo)
      → Fits next o
      → info_of z src dst next o ≡ some p
      → HasPorts p
  info_of-HasPorts src dst next none p h e = absurd cc
  info_of-HasPorts src dst next (some (a, b)) p h e = subst HasPorts (unwrap _ p e) h

  info_of_v6-HasPorts :
      (o : Option IpView) (p : PacketInfo) → info_of_v6 lib z o ≡ some p → HasPorts p
  info_of_v6-HasPorts none p e = absurd cc
  info_of_v6-HasPorts (some v) p e = info_of-HasPorts _ _ v.next_protocol _ p (ports_of-Fits v) e

  info_of_view-HasPorts :
      (o : Option (ℕ × IpView)) (p : PacketInfo) → info_of_view lib z o ≡ some p → HasPorts p
  info_of_view-HasPorts none p e = absurd cc
  info_of_view-HasPorts (some (version, v)) p e = elim (Bool-cases (version == 4)) [
    | inl y ↦ info_of-HasPorts _ _ v.next_protocol _ p (ports_of-Fits v) (sym (if_true _ _ _ y) ∙ e)
    | inr y ↦ elim (Bool-cases (version == 6)) [
      | inl y' ↦
          info_of_v6-HasPorts (lib.ipv6_packet z.payload) p
            (sym (if_true _ _ _ y') ∙ (sym (if_false _ _ _ y) ∙ e))
      | inr y' ↦ absurd (cc (sym (if_false _ _ _ y') ∙ (sym (if_false _ _ _ y) ∙ e)))
    ]
  ]

  -- What is extracted has ports exactly where its protocol is TCP or UDP.
  pub extract_packet_info-HasPorts :
      (p : PacketInfo) → extract_packet_info lib z ≡ some p → HasPorts p
  unfolding extract_packet_info
  extract_packet_info-HasPorts p e = info_of_view-HasPorts (lib.ipv4_packet z.payload) p e
