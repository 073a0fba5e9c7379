-- ===== src/Rpc.antt =====
-- The pieces of an RPC packet: easytier/src/proto/rpc_impl/packet.rs, over the messages of
-- easytier/src/proto/common.proto.
pub mod Chunks
pub mod Merge
use neo_easy_tier_deamon.Prelude.{
  ℕ, zero, suc, ◌+◌, ◌-◌, ◌*◌, ◌/◌, ltb, leb, Bool, true, false, ◌||◌, ◌&&◌, not, Option, none,
  some, List, [], ◌∷◌, ◌++◌, ◌==◌, if◌then◌else◌, take, drop, length, set, get_or, replicate,
}
use neo_easy_tier_deamon.Prelude.Int.{ℤ, pos, int_eq}
use neo_easy_tier_deamon.Prelude.Text.{Text}

-- `RpcDescriptor`
pub record RpcDescriptor : Type 0 where
  pub domain_name : Text
  pub proto_name : Text
  pub service_name : Text
  pub method_index : ℕ

-- `RpcCompressionInfo`, with `CompressionAlgoPb` as a number: 1 is `None`.
pub record RpcCompressionInfo : Type 0 where
  pub algo : ℕ
  pub accepted_algo : ℕ

abbrev pub algo_none : ℕ
algo_none = 1

pub record RpcPacket : Type 0 where
  pub from_peer : ℕ
  pub to_peer : ℕ
  pub transaction_id : ℤ
  pub descriptor : Option RpcDescriptor
  pub body : List ℕ
  pub is_request : Bool
  pub total_pieces : ℕ
  pub piece_idx : ℕ
  pub trace_id : ℤ
  pub compression_info : Option RpcCompressionInfo

-- `RpcPacket::default()`
abbrev pub default_packet : RpcPacket
default_packet = record {
  from_peer = 0;
  to_peer = 0;
  transaction_id = pos 0;
  descriptor = none;
  body = [];
  is_request = false;
  total_pieces = 0;
  piece_idx = 0;
  trace_id = pos 0;
  compression_info = none;
}

abbrev pub content_mtu : ℕ
content_mtu = 1300

abbrev pub div_ceil : ℕ → ℕ → ℕ
div_ceil a b = (a + b - 1) / b

pub record BuildRpcPacketArgs : Type 0 where
  pub from_peer : ℕ
  pub to_peer : ℕ
  pub rpc_desc : RpcDescriptor
  pub transaction_id : ℤ
  pub is_req : Bool
  pub content : List ℕ
  pub trace_id : ℤ
  pub compression_info : RpcCompressionInfo

-- The packet that the loop makes at an offset.
unfoldable pub piece_at : BuildRpcPacketArgs → ℕ → RpcPacket
piece_at args cur_offset = record {
  from_peer = args.from_peer;
  to_peer = args.to_peer;
  transaction_id = args.transaction_id;
  descriptor =
      if cur_offset == 0 || args.compression_info.algo == algo_none
      then some args.rpc_desc
      else none;
  body =
      take
        (if ltb (length args.content) (cur_offset + content_mtu)
          then length args.content - cur_offset
          else content_mtu)
        (drop cur_offset args.content);
  is_request = args.is_req;
  total_pieces = div_ceil (length args.content) content_mtu;
  piece_idx = cur_offset / content_mtu;
  trace_id = args.trace_id;
  compression_info = if cur_offset == 0 then some args.compression_info else none;
}

-- The loop of `build_rpc_packet` from an offset on, for a content that is not empty.
unfoldable pub build_loop : ℕ → BuildRpcPacketArgs → ℕ → List RpcPacket
build_loop zero args cur_offset = []
build_loop (suc fuel) args cur_offset =
    let rest = build_loop fuel args (
      if ltb (length args.content) (cur_offset + content_mtu)
      then length args.content
      else cur_offset + content_mtu) in
    if ltb cur_offset (length args.content) then piece_at args cur_offset ∷ rest else []

-- `build_rpc_packet`, before its packets are encoded: an empty content makes one packet.
unfoldable pub build_rpc_packet : BuildRpcPacketArgs → List RpcPacket
build_rpc_packet args =
    if length args.content == 0
    then piece_at args 0 ∷ []
    else build_loop (length args.content) args 0

pub record PacketMerger : Type 0 where
  pub first_piece : Option RpcPacket
  pub pieces : List RpcPacket
  pub last_updated : ℕ

abbrev pub new : ℕ → PacketMerger
new now = record { first_piece = none; pieces = []; last_updated = now }

-- `Error::MalformatRpcPacket`, by what is wrong.
pub data FeedError : Type 0 where
  descriptor_missing total_pieces_invalid piece_idx_invalid : FeedError

pub data FeedResult : Type 0 where
  ok : Option RpcPacket → FeedResult
  err : FeedError → FeedResult

abbrev pub any_missing : List RpcPacket → Bool
any_missing [] = false
any_missing (p ∷ ps) = p.total_pieces == 0 || any_missing ps

abbrev pub bodies : List RpcPacket → List ℕ
bodies [] = []
bodies (p ∷ ps) = p.body ++ bodies ps

abbrev pub merged : List RpcPacket → Option RpcPacket
merged [] = none
merged (p ∷ ps) =
    if any_missing (p ∷ ps)
    then none
    else some (record p { total_pieces = 1; piece_idx = 0; body = bodies (p ∷ ps) })

unfoldable pub try_merge_pieces : PacketMerger → Option RpcPacket
try_merge_pieces m = elim m.first_piece [ none ↦ none | some _ ↦ merged m.pieces ]

-- `Vec::resize`
abbrev pub resize : ℕ → List RpcPacket → List RpcPacket
resize zero ps = []
resize (suc n) [] = default_packet ∷ resize n []
resize (suc n) (p ∷ ps) = p ∷ resize n ps

-- Whether the piece belongs to another packet than the first piece does.
abbrev pub is_other : Option RpcPacket → RpcPacket → Bool
is_other none p = true
is_other (some f) p =
    not (int_eq f.transaction_id p.transaction_id) || not (f.from_peer == p.from_peer)

abbrev pub is_none {ℓ} : {A : Type ℓ} → Option A → Bool
is_none none = true
is_none (some _) = false

-- The state after a piece that passes the checks.
abbrev pub store : PacketMerger → RpcPacket → ℕ → PacketMerger
store m p now =
    let m' : PacketMerger =
      if is_other m.first_piece p then record m { first_piece = some p; pieces = [] } else m in
    record m' { pieces = set (resize p.total_pieces m'.pieces) p.piece_idx p; last_updated = now }

unfoldable pub feed : PacketMerger → RpcPacket → ℕ → PacketMerger × FeedResult
unfolding try_merge_pieces
feed m p now =
    if p.total_pieces == 0 && p.piece_idx == 0
    then (m, ok (some p))
    else if p.piece_idx == 0 && is_none p.descriptor
    then (m, err descriptor_missing)
    else if ltb (32 * 1024) p.total_pieces || p.total_pieces == 0
    then (m, err total_pieces_invalid)
    else if leb p.total_pieces p.piece_idx
    then (m, err piece_idx_invalid)
    else (store m p now, ok (try_merge_pieces (store m p now)))
