-- ===== src/Tests/Network.antt =====
-- Examples of RPC packets, of the bucket and of the reassembler.
use neo_easy_tier_deamon.Prelude.{
  ℕ, ◌≡◌, refl, true, false, some, List, [], ◌∷◌, arith, replicate, length,
}
use neo_easy_tier_deamon.Prelude.Int.{pos}
use neo_easy_tier_deamon.Prelude.Text.{codes}
use neo_easy_tier_deamon.Rpc.{BuildRpcPacketArgs, build_rpc_packet, bodies, feed, ok, new, piece_at}
use neo_easy_tier_deamon.Rpc.Chunks.{bodies-build_rpc_packet}
use neo_easy_tier_deamon.Rpc.Merge.{feed_merges, fed, whole}
use neo_easy_tier_deamon.Limiter.{BucketConfig}
use neo_easy_tier_deamon.Limiter.Threads.{
  run, full, IsSound, run-IsSound, Move, call_consume, call_refill, pass,
}
use neo_easy_tier_deamon.Reassembler.{
  IpFragment, IpPacket, add_to_packet, assemble, assembled, panic, is_complete,
}
use neo_easy_tier_deamon.Reassembler.Overlap.{
  AreApart, add_to_packet-AreApart, assemble_complete, beyond,
}

abbrev call : BuildRpcPacketArgs
call = record {
  from_peer = 1;
  to_peer = 2;
  rpc_desc = record {
    domain_name = codes "d";
    proto_name = codes "p";
    service_name = codes "s";
    method_index = 3;
  };
  transaction_id = pos 7;
  is_req = true;
  content = replicate 3 5;
  trace_id = pos 0;
  compression_info = record { algo = 1; accepted_algo = 1 };
}

bodies-build_rpc_packet_example : bodies (build_rpc_packet call) ≡ replicate 3 5
bodies-build_rpc_packet_example = bodies-build_rpc_packet call

-- The one piece of the call, sent twice.
feed_merges_example :
    (feed (fed call (new 0) ((0, 4) ∷ [])) (piece_at call 0) 9).1 ≡ ok (some (whole call))
unfolding feed
feed_merges_example =
    feed_merges call (new 0) 0 9 ((0, 4) ∷ []) (omega arith) (omega arith) refl
      (omega arith, (omega arith, tt))

abbrev bucket : BucketConfig
bucket = record { capacity = 1000; fill_rate = 100; refill_interval_ms = 10 }

-- Thread 0 takes 400 tokens, thread 1 loads the old value and loses the race, and fills later.
abbrev moves : List (ℕ × Move)
moves =
    (0, call_consume 400)
    ∷ (1, call_refill 50)
    ∷ (0, pass false)
    ∷ (1, pass false)
    ∷ (1, pass false)
    ∷ []

run-IsSound_example : IsSound bucket (run bucket moves (full bucket))
run-IsSound_example = run-IsSound bucket moves (omega arith)

abbrev fragment : ℕ → ℕ → IpFragment
fragment offset n = record { id = 1; offset = offset; bytes = replicate n 7 }

abbrev packet : List IpFragment → IpPacket
packet fs = record { source = 1; destination = 2; total_length = some 16; fragments = fs }

add_to_packet-AreApart_example :
    AreApart (add_to_packet (fragment 8 8) (packet (fragment 0 8 ∷ []))).fragments
add_to_packet-AreApart_example =
    add_to_packet-AreApart (fragment 8 8) (packet (fragment 0 8 ∷ [])) (omega arith)
      (omega arith, tt) (tt, tt)

assemble_complete_example :
    let p = packet (fragment 8 8 ∷ fragment 0 8 ∷ []) in
    (beyond 16 p.fragments ≡ true → (assemble p).1 ≡ panic)
    × (beyond 16 p.fragments ≡ false
        → (out : List ℕ) × ((assemble p).1 ≡ assembled out) × (length out ≡ 16))
unfolding is_complete
assemble_complete_example =
    assemble_complete 16 (packet (fragment 8 8 ∷ fragment 0 8 ∷ [])) refl refl
