-- ===== src/Acl/State/Track.antt =====
-- The connection table (easytier/src/common/acl_processor.rs).
use mathlib.Core.List.{lookup}
use neo_easy_tier_deamon.Prelude.{
  ℕ, ◌+◌, ◌%◌, ◌^◌, ◌<◌, ◌≡◌, ◌∙◌, ap, refl, none, some, List, [], ◌∷◌, length, arith,
}
use neo_easy_tier_deamon.Prelude.Assoc.{lookup-put_self}
use neo_easy_tier_deamon.Acl.{PacketInfo}
use neo_easy_tier_deamon.Acl.State.{
  AclState, Clock, ConnKey, ConnKey-discrete, ConnState, fresh, established, ConnTrackEntry,
  conn_track_key, port_or_zero, seen, check_connection_state,
}

-- Packets of one connection, at their times.
unfoldable pub track_all : ConnKey → List (PacketInfo × Clock) → AclState → AclState
unfolding check_connection_state
track_all k [] s = s
track_all k ((p, t) ∷ ps) s = track_all k ps (check_connection_state k p t s)

abbrev pub total_size : List (PacketInfo × Clock) → ℕ
total_size [] = 0
total_size ((p, t) ∷ ps) = p.packet_size + total_size ps

abbrev pub last_time : ℕ → List (PacketInfo × Clock) → ℕ
last_time d [] = d
last_time d ((p, t) ∷ ps) = last_time t.unix_secs ps

abbrev pub state_after : ConnState → List (PacketInfo × Clock) → ConnState
state_after x [] = x
state_after x (_ ∷ _) = established

established_after : (ps : List (PacketInfo × Clock)) → state_after established ps ≡ established
established_after [] = refl
established_after (_ ∷ _) = refl

-- The entry after further packets.
abbrev grown : ConnTrackEntry → List (PacketInfo × Clock) → ConnTrackEntry
grown x ps = record x {
  state = state_after x.state ps;
  last_seen = last_time x.last_seen ps;
  packet_count = x.packet_count + length ps;
  byte_count = x.byte_count + total_size ps;
}

grown_nil : (x : ConnTrackEntry) → some x ≡ some (grown x [])
grown_nil x =
    let a : x.packet_count + 0 ≡ x.packet_count = omega arith in
    let b : x.byte_count + 0 ≡ x.byte_count = omega arith in rw (a, b) refl

grown_cons :
    (x : ConnTrackEntry) (p : PacketInfo) (t : Clock) (ps : List (PacketInfo × Clock))
    → x.packet_count + length ((p, t) ∷ ps) < 2 ^ 64
    → x.byte_count + total_size ((p, t) ∷ ps) < 2 ^ 64
    → some (grown (seen p t (some x)) ps) ≡ some (grown x ((p, t) ∷ ps))
grown_cons x p t ps few small =
    let a : (x.packet_count + 1) % 2 ^ 64 + length ps ≡ x.packet_count + length ((p, t) ∷ ps) =
      omega arith in
    let b : (x.byte_count + p.packet_size) % 2 ^ 64 + total_size ps
        ≡ x.byte_count + total_size ((p, t) ∷ ps) =
      omega arith in
    rw (a, b, established_after ps) refl

track_all-grown :
    (k : ConnKey) (x : ConnTrackEntry) (ps : List (PacketInfo × Clock)) (s : AclState)
    → lookup ConnKey-discrete k s.conn_track ≡ some x
    → x.packet_count + length ps < 2 ^ 64
    → x.byte_count + total_size ps < 2 ^ 64
    → lookup ConnKey-discrete k (track_all k ps s).conn_track ≡ some (grown x ps)
unfolding track_all check_connection_state
track_all-grown k x [] s e few small = e ∙ grown_nil x
track_all-grown k x ((p, t) ∷ ps) s e few small =
    let found : lookup ConnKey-discrete k (check_connection_state k p t s).conn_track
        ≡ some (seen p t (some x)) =
      lookup-put_self ConnKey-discrete k _ s.conn_track ∙ ap (λ o. some (seen p t o)) e in
    track_all-grown k (seen p t (some x)) ps (check_connection_state k p t s) found (omega arith)
      (omega arith)
    ∙ grown_cons x p t ps few small

new_grown :
    (p : PacketInfo) (t : Clock) (ps : List (PacketInfo × Clock))
    → some (grown (seen p t none) ps)
      ≡ some (record (grown (seen p t none) ps) { packet_count = length ((p, t) ∷ ps) })
new_grown p t ps = let a : 1 + length ps ≡ length ((p, t) ∷ ps) = omega arith in rw a refl

-- After one or more packets of a connection that was not in the table, its entry has the addresses
-- and the protocol of the first, the times of the first and of the last, the number and the total
-- size of all (which 64 bits hold), and is established if there was more than one.
track_all-new :
    (p : PacketInfo) (t : Clock) (ps : List (PacketInfo × Clock)) (s : AclState)
    → lookup ConnKey-discrete (conn_track_key p) s.conn_track ≡ none
    → length ((p, t) ∷ ps) < 2 ^ 64
    → total_size ((p, t) ∷ ps) < 2 ^ 64
    → lookup ConnKey-discrete
        (conn_track_key p)
        (track_all (conn_track_key p) ((p, t) ∷ ps) s).conn_track
      ≡ some (record {
        src_addr = (p.src_ip, port_or_zero p.src_port);
        dst_addr = (p.dst_ip, port_or_zero p.dst_port);
        protocol = p.protocol;
        state = state_after fresh ps;
        created_at = t.unix_secs;
        last_seen = last_time t.unix_secs ps;
        packet_count = length ((p, t) ∷ ps);
        byte_count = total_size ((p, t) ∷ ps);
      })
unfolding track_all check_connection_state
track_all-new p t ps s e few small =
    let k = conn_track_key p in
    let found : lookup ConnKey-discrete k (check_connection_state k p t s).conn_track
        ≡ some (seen p t none) =
      lookup-put_self ConnKey-discrete k _ s.conn_track ∙ ap (λ o. some (seen p t o)) e in
    track_all-grown k (seen p t none) ps (check_connection_state k p t s) found (omega arith)
      (omega arith)
    ∙ new_grown p t ps
