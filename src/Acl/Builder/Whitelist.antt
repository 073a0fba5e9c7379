-- ===== src/Acl/Builder/Whitelist.antt =====
-- What the whitelists of the command line let in, through the whole way of a packet
-- (easytier/src/common/acl_processor.rs).
use mathlib.Core.Path.{subst}
use neo_easy_tier_deamon.Prelude.{
  ◌≡◌, ◌∙◌, sym, ap, refl, Bool, false, ◌&&◌, ◌||◌, Option, none, some, List, [], ◌∷◌, ◌++◌,
  if◌then◌else◌, inl, inr, Option-cases,
}
use neo_easy_tier_deamon.Prelude.Text.{Text}
use neo_easy_tier_deamon.Acl.{tcp, Action, inbound, CidrLib, Rule, Acl, PacketInfo}
use neo_easy_tier_deamon.Acl.Rules.{rule_matches, convert_to_fast_lookup_rule, protocol_matches}
use neo_easy_tier_deamon.Acl.Entry.{config_of}
use neo_easy_tier_deamon.Acl.Process.Verdict.{verdict}
use neo_easy_tier_deamon.Acl.Builder.{
  parse_port_list, tcp_rule, udp_rule, inbound_chain, rules_for, append_rules, build,
}
use neo_easy_tier_deamon.Acl.Builder.Ports.{TrimKeeps, port_listed}
use neo_easy_tier_deamon.Acl.Builder.Listed.{
  is_listed, matches_both, matches_tcp, matches_udp, tcp_rule-listed, udp_rule-listed, both_rules,
  one_tcp, one_udp,
}

append_rules-some :
    (x y : Option (List Rule)) (acl : Acl)
    → append_rules none x y ≡ some (some acl)
    → (ts : List Rule) × (us : List Rule) × (x ≡ some ts)
      × (y ≡ some us)
      × (record { chains = some (inbound_chain (ts ++ us) ∷ []) } ≡ acl)
append_rules-some none y acl e = absurd cc
append_rules-some (some ts) none acl e = absurd cc
append_rules-some (some ts) (some us) acl e = (ts, us, refl, refl, cc)

rules_for-nil : (rule : List Text → Rule) (rs : List Rule) → rules_for rule [] ≡ some rs → [] ≡ rs
unfolding rules_for
rules_for-nil rule rs e = cc

rules_for-some :
    (rule : List Text → Rule) (s : Text) (ss : List Text) (rs : List Rule)
    → rules_for rule (s ∷ ss) ≡ some rs
    → (ps : List Text) × (parse_port_list (s ∷ ss) ≡ some ps) × (rs ≡ rule ps ∷ [])
unfolding rules_for
rules_for-some rule s ss rs e = elim (Option-cases (parse_port_list (s ∷ ss))) [
  | inl n ↦ absurd (cc (rw (rules_for, n) at e))
  | inr (ps, y) ↦ (ps, y, cc (rw (rules_for, y) at e))
]

-- The configuration of a whitelist alone.
abbrev only : List Rule → Acl
only rules = record { chains = some (inbound_chain rules ∷ []) }

module _ {V4 V6 : Type 0} (lib : CidrLib V4 V6) (keeps : TrimKeeps lib) where
  -- The verdict on a packet, as a property of the configuration.
  abbrev Lets : PacketInfo → Bool → Acl → Type 0
  Lets p listed acl =
      (verdict (config_of lib acl) p inbound).action
      ≡ (if listed then Action.allow else Action.drop)

  tcp_rule-Lets :
      (s : Text) (ss tp : List Text) (p : PacketInfo)
      → parse_port_list (s ∷ ss) ≡ some tp
      → Lets p (is_listed (s ∷ ss) [] p) (only (tcp_rule 1000 tp ∷ []))
  tcp_rule-Lets s ss tp p e =
      one_tcp lib tp p
      ∙ ap (λ b. if b then Action.allow else Action.drop)
          (ap (λ b. b || false) (tcp_rule-listed lib keeps 1000 s ss tp p e)
            ∙ matches_tcp lib p.protocol (port_listed p.dst_port (s ∷ ss)))

  udp_rule-Lets :
      (s : Text) (ss up : List Text) (p : PacketInfo)
      → parse_port_list (s ∷ ss) ≡ some up
      → Lets p (is_listed [] (s ∷ ss) p) (only (udp_rule 1000 up ∷ []))
  udp_rule-Lets s ss up p e =
      one_udp lib up p
      ∙ ap (λ b. if b then Action.allow else Action.drop)
          (ap (λ b. b || false) (udp_rule-listed lib keeps 1000 s ss up p e)
            ∙ matches_udp lib p.protocol (port_listed p.dst_port (s ∷ ss)))

  both_rules-Lets :
      (s u : Text) (ss uu tp up : List Text) (p : PacketInfo)
      → parse_port_list (s ∷ ss) ≡ some tp
      → parse_port_list (u ∷ uu) ≡ some up
      → Lets p (is_listed (s ∷ ss) (u ∷ uu) p) (only (tcp_rule 1000 tp ∷ udp_rule 999 up ∷ []))
  both_rules-Lets s u ss uu tp up p e f =
      both_rules lib tp up p
      ∙ ap (λ b. if b then Action.allow else Action.drop)
          (ap
              (λ b.
                b
                || (rule_matches lib (convert_to_fast_lookup_rule lib (udp_rule 999 up)) p
                    || false))
              (tcp_rule-listed lib keeps 1000 s ss tp p e)
            ∙ (ap
                  (λ b.
                    (protocol_matches lib tcp p.protocol && port_listed p.dst_port (s ∷ ss))
                    || (b || false))
                  (udp_rule-listed lib keeps 999 u uu up p f)
                ∙ matches_both lib p.protocol (port_listed p.dst_port (s ∷ ss))
                    (port_listed p.dst_port (u ∷ uu))))

  -- The configuration that is built of the port whitelists alone allows an inbound packet of TCP or
  -- UDP exactly when the whitelist of its protocol has its destination port, or when it has no port
  -- and this whitelist is not empty, and drops every other inbound packet. The hypothesis on the
  -- library is that trimming keeps the text of a port.
  pub build-verdict :
      (tcp_list udp_list : List Text) (acl : Acl) (p : PacketInfo)
      → build none tcp_list udp_list ≡ some (some acl)
      → (verdict (config_of lib acl) p inbound).action
        ≡ (if is_listed tcp_list udp_list p then Action.allow else Action.drop)
  unfolding build
  build-verdict [] [] acl p e = absurd cc
  build-verdict (s ∷ ss) [] acl p e =
      let (ts, us, x, y, same) = append_rules-some _ _ acl e in
      let (tp, parsed, one) = rules_for-some (tcp_rule 1000) s ss ts x in
      let built : only (tcp_rule 1000 tp ∷ []) ≡ acl =
        ap (λ l. only (l ++ [])) (sym one)
        ∙ (ap (λ l. only (ts ++ l)) (rules_for-nil (udp_rule 999) us y) ∙ same) in
      subst (Lets p (is_listed (s ∷ ss) [] p)) built (tcp_rule-Lets s ss tp p parsed)
  build-verdict [] (u ∷ uu) acl p e =
      let (ts, us, x, y, same) = append_rules-some _ _ acl e in
      let (up, parsed, one) = rules_for-some (udp_rule 1000) u uu us y in
      let built : only (udp_rule 1000 up ∷ []) ≡ acl =
        ap only (sym one)
        ∙ (ap (λ l. only (l ++ us)) (rules_for-nil (tcp_rule 1000) ts x) ∙ same) in
      subst (Lets p (is_listed [] (u ∷ uu) p)) built (udp_rule-Lets u uu up p parsed)
  build-verdict (s ∷ ss) (u ∷ uu) acl p e =
      let (ts, us, x, y, same) = append_rules-some _ _ acl e in
      let (tp, parsed, one) = rules_for-some (tcp_rule 1000) s ss ts x in
      let (up, parsed', two) = rules_for-some (udp_rule 999) u uu us y in
      let built : only (tcp_rule 1000 tp ∷ udp_rule 999 up ∷ []) ≡ acl =
        ap (λ l. only (l ++ udp_rule 999 up ∷ [])) (sym one)
        ∙ (ap (λ l. only (ts ++ l)) (sym two) ∙ same) in
      subst (Lets p (is_listed (s ∷ ss) (u ∷ uu) p)) built
        (both_rules-Lets s u ss uu tp up p parsed parsed')
