-- ===== src/Reassembler/Compose.antt =====
-- `compose_ipv4_packet` of easytier/src/gateway/ip_reassembler.rs: the packets that a payload is
-- sent in. pnet writes the header: what it does to the bytes of a packet is a parameter.
use neo_easy_tier_deamon.Prelude.{
  ℕ, zero, suc, ◌+◌, ◌-◌, ◌/◌, ◌%◌, ltb, Bool, ◌&&◌, not, List, [], ◌∷◌, ◌++◌, ◌==◌, if◌then◌else◌,
  take, drop, length, min,
}
use neo_easy_tier_deamon.Reassembler.{u16}

-- The fields that are set, but for those that are always the same (version 4, header length 5,
-- ecn 0, dscp 0, ttl 32, and the checksum of what is written).
pub record Header : Type 0 where
  pub total_length : ℕ
  pub identification : ℕ
  pub more_fragments : Bool
  pub dont_fragment : Bool
  pub fragment_offset : ℕ
  pub source : ℕ
  pub destination : ℕ
  pub next_level_protocol : ℕ

pub record ComposeIpv4PacketArgs : Type 0 where
  pub src_v4 : ℕ
  pub dst_v4 : ℕ
  pub next_protocol : ℕ
  pub payload_len : ℕ
  pub payload_mtu : ℕ
  pub ip_id : ℕ

-- How the loop ends: at the end of the payload, with an error of the callback, or by a panic; the
-- loop of the model can also run out of fuel.
pub data End : Type 0 where
  done failed panic no_fuel : End

pub total_pieces : ComposeIpv4PacketArgs → ℕ
total_pieces args = (args.payload_len + args.payload_mtu - 1) / args.payload_mtu

-- The header of piece `cur_piece`, which starts at `fragment_offset` of the payload.
pub header_of : ComposeIpv4PacketArgs → ℕ → ℕ → ℕ → Header
unfolding total_pieces
header_of args fragment_len fragment_offset cur_piece =
    let many = ltb 1 (total_pieces args) in
    record {
      total_length = u16 (fragment_len + 20);
      identification = args.ip_id;
      more_fragments = many && not (cur_piece == total_pieces args - 1);
      dont_fragment = not many;
      fragment_offset = if many then u16 fragment_offset / 8 else 0;
      source = args.src_v4;
      destination = args.dst_v4;
      next_level_protocol = args.next_protocol;
    }

module _ (write_header : Header → List ℕ → List ℕ) (cb : List ℕ → Bool) where
  -- The bytes `buf[off..off + len + 20]` with the header written over their start.
  unfoldable pub packet_at : ComposeIpv4PacketArgs → List ℕ → ℕ → ℕ → ℕ → List ℕ
  packet_at args buf len off cur_piece =
      write_header (header_of args len off cur_piece) (take (len + 20) (drop off buf))

  -- The buffer after that, and the packets that the callback got. `buf_offset` is always
  -- `fragment_offset`: both start at 0 and grow by the same.
  unfoldable pub compose_loop : ℕ → ComposeIpv4PacketArgs → List ℕ → ℕ → ℕ → List (List ℕ) × End
  unfolding packet_at
  compose_loop zero args buf fragment_offset cur_piece = ([], no_fuel)
  compose_loop (suc fuel) args buf fragment_offset cur_piece =
      let next = min (fragment_offset + args.payload_mtu) args.payload_len in
      let len = next - fragment_offset in
      let packet = packet_at args buf len fragment_offset cur_piece in
      let buf' = take fragment_offset buf ++ (packet ++ drop (next + 20) buf) in
      let (rest, end) = compose_loop fuel args buf' next (cur_piece + 1) in
      if not (ltb fragment_offset args.payload_len)
      then ([], done)
      else if ltb (length buf) (next + 20)
      then ([], panic)
      else if ltb 1 (total_pieces args) && not (fragment_offset % 8 == 0)
      then ([], panic)
      else if cb packet
      then (packet ∷ rest, end)
      else (packet ∷ [], failed)

  -- `div_ceil` by 0 panics. Each pass takes at least a byte of the payload.
  unfoldable pub compose_ipv4_packet : ComposeIpv4PacketArgs → List ℕ → List (List ℕ) × End
  unfolding compose_loop
  compose_ipv4_packet args buf =
      if args.payload_mtu == 0
      then ([], panic)
      else compose_loop (args.payload_len + 1) args buf 0 0
