-- ===== src/Rpc/Merge.antt =====
-- `PacketMerger` puts the pieces of a packet together again, in whatever order they arrive
-- (easytier/src/proto/rpc_impl/packet.rs).
use neo_easy_tier_deamon.Prelude.{
  ℕ, zero, suc, ◌*◌, ◌<◌, ◌≤◌, ◌≡◌, ◌≢◌, ◌∙◌, refl, sym, ap, Bool, true, false, ◌||◌, ◌&&◌, Option,
  none, some, List, [], ◌∷◌, ◌==◌, if◌then◌else◌, length, set, get_or, arith, length-set,
  get_or-set, list_ext, ==_refl, ==_ne, ℕ_discrete, Bool-cases, inl, inr,
}
use neo_easy_tier_deamon.Prelude.Int.{int_eq_iff}
use neo_easy_tier_deamon.Rpc.{
  RpcPacket, BuildRpcPacketArgs, PacketMerger, ok, content_mtu, piece_at, build_rpc_packet, bodies,
  default_packet, any_missing, merged, resize, is_other, is_none, store, feed, try_merge_pieces,
}
use neo_easy_tier_deamon.Rpc.Chunks.{
  pieces_of, length-build_rpc_packet, get_or-build_rpc_packet, bodies-build_rpc_packet,
}

length-resize : (n : ℕ) (ps : List RpcPacket) → length (resize n ps) ≡ n
length-resize zero ps = refl
length-resize (suc n) [] = ap suc (length-resize n [])
length-resize (suc n) (p ∷ ps) = ap suc (length-resize n ps)

get_or-resize-nil : (n i : ℕ) → get_or (resize n []) i default_packet ≡ default_packet
get_or-resize-nil zero i = refl
get_or-resize-nil (suc n) zero = refl
get_or-resize-nil (suc n) (suc i) = get_or-resize-nil n i

resize_self : (n : ℕ) (ps : List RpcPacket) → length ps ≡ n → resize n ps ≡ ps
resize_self zero [] h = refl
resize_self zero (p ∷ ps) h = absurd (omega arith)
resize_self (suc n) [] h = absurd (omega arith)
resize_self (suc n) (p ∷ ps) h = ap (λ l. p ∷ l) (resize_self n ps (omega arith))

any_missing-true :
    (ps : List RpcPacket) (i : ℕ)
    → i < length ps
    → (get_or ps i default_packet).total_pieces ≡ 0
    → any_missing ps ≡ true
any_missing-true [] i h e = absurd (omega arith)
any_missing-true (p ∷ ps) zero h e = ground arith
any_missing-true (p ∷ ps) (suc i) h e = ground (arith, any_missing-true ps i (omega arith) e)

any_missing-false :
    (ps : List RpcPacket)
    → ((i : ℕ) → i < length ps → (get_or ps i default_packet).total_pieces ≢ 0)
    → any_missing ps ≡ false
any_missing-false [] h = refl
any_missing-false (p ∷ ps) h =
    rw (==_ne _ _ (h 0 (omega arith))) (any_missing-false ps (λ i l. h (suc i) (omega arith)))

abbrev pub mem : ℕ → List (ℕ × ℕ) → Bool
mem i [] = false
mem i ((k, t) ∷ ks) = k == i || mem i ks

-- Every index below `n` is in the list.
abbrev pub covers : ℕ → List (ℕ × ℕ) → Bool
covers zero ks = true
covers (suc n) ks = mem n ks && covers n ks

covers-true : (n i : ℕ) (ks : List (ℕ × ℕ)) → covers n ks ≡ true → i < n → mem i ks ≡ true
covers-true zero i ks h l = absurd (omega arith)
covers-true (suc n) i ks h l = elim (ℕ_discrete i n) [
  | yes e ↦ rw e (ground arith)
  | no ne ↦ covers-true n i ks (ground arith) (omega arith)
]

covers-false :
    (n : ℕ) (ks : List (ℕ × ℕ)) → covers n ks ≡ false → (i : ℕ) × (i < n) × (mem i ks ≡ false)
covers-false zero ks h = absurd (cc)
covers-false (suc n) ks h = elim (Bool-cases (mem n ks)) [
  | inl e ↦ let (i, l, m) = covers-false n ks (ground arith) in (i, omega arith, m)
  | inr e ↦ (n, omega arith, e)
]

module _ (args : BuildRpcPacketArgs) where
  -- Piece `k` of the packet.
  abbrev pub piece : ℕ → RpcPacket
  piece k = piece_at args (k * content_mtu)

  -- A merger after pieces have arrived, the last one first, each with its index and its time.
  pub fed : PacketMerger → List (ℕ × ℕ) → PacketMerger
  fed m [] = m
  fed m ((k, t) ∷ ks) = (feed (fed m ks) (piece k) t).0

  -- All arrivals are pieces of the packet.
  abbrev pub AreBelow : ℕ → List (ℕ × ℕ) → Type 0
  AreBelow n [] = Unit
  AreBelow n ((k, t) ∷ ks) = (k < n) × AreBelow n ks

  -- The packet as a whole: the first piece, with the whole content.
  abbrev pub whole : RpcPacket
  whole = record (piece_at args 0) { total_pieces = 1; piece_idx = 0; body = args.content }

  -- The pieces of the arrivals are in their places, and no others.
  record Holds (ks : List (ℕ × ℕ)) (ps : List RpcPacket) : Type 0 where
    size : length ps ≡ pieces_of args
    slots : (i : ℕ) → get_or ps i default_packet ≡ (if mem i ks then piece i else default_packet)

  set-Holds :
      (ks : List (ℕ × ℕ)) (ps : List RpcPacket) (k t : ℕ)
      → Holds ks ps
      → k < pieces_of args
      → Holds ((k, t) ∷ ks) (set ps k (piece k))
  set-Holds ks ps k t h l = record {
    size = length-set ps k (piece k) ∙ h.size;
    slots = λ i.
        ground
          (arith, get_or-set ps k i (piece k) default_packet (omega (arith, h.size)), h.slots i);
  }

  piece-fields :
      (k : ℕ)
      → 0 < length args.content
      → k < pieces_of args
      → ((piece k).total_pieces ≡ pieces_of args)
        × ((piece k).piece_idx ≡ k)
        × (((piece k).piece_idx == 0 && is_none (piece k).descriptor) ≡ false)
  unfolding piece_at
  piece-fields k pos l = ground arith

  feed-store :
      (m : PacketMerger) (k t : ℕ)
      → 0 < length args.content
      → pieces_of args ≤ 32 * 1024
      → k < pieces_of args
      → feed m (piece k) t ≡ (store m (piece k) t, ok (try_merge_pieces (store m (piece k) t)))
  unfolding feed
  feed-store m k t pos small l =
      let (total, idx, desc) = piece-fields k pos l in rw desc (ground (arith, total, idx))

  -- A list that has a first element and no gap is merged into that element.
  merged-head :
      (ps : List RpcPacket) (p : RpcPacket)
      → 0 < length ps
      → any_missing ps ≡ false
      → get_or ps 0 default_packet ≡ p
      → merged ps ≡ some (record p { total_pieces = 1; piece_idx = 0; body = bodies ps })
  merged-head [] p h a e = absurd (omega arith)
  merged-head (q ∷ qs) p h a e = rw a (rw e)

  merged-gap : (ps : List RpcPacket) → any_missing ps ≡ true → merged ps ≡ none
  merged-gap [] a = refl
  merged-gap (q ∷ qs) a = rw a

  merged-Holds :
      (ks : List (ℕ × ℕ)) (ps : List RpcPacket)
      → 0 < length args.content
      → Holds ks ps
      → merged ps ≡ (if covers (pieces_of args) ks then some whole else none)
  merged-Holds ks ps pos h = elim (Bool-cases (covers (pieces_of args) ks)) [
    | inr e ↦
        let (i, l, gone) = covers-false (pieces_of args) ks e in
        let zero_pieces : (get_or ps i default_packet).total_pieces ≡ 0 =
          rw (h.slots i) (rw gone) in
        rw e (merged-gap ps (any_missing-true ps i (omega (arith, h.size)) zero_pieces))
    | inl e ↦
        let slot : (i : ℕ) → i < pieces_of args → get_or ps i default_packet ≡ piece i =
          λ i l. h.slots i ∙ rw (covers-true (pieces_of args) i ks e l) in
        let same : ps ≡ build_rpc_packet args =
          list_ext ps (build_rpc_packet args) default_packet
            (h.size ∙ sym (length-build_rpc_packet args))
            (λ i l.
              let l' : i < pieces_of args = omega (arith, length-build_rpc_packet args) in
              slot i l' ∙ sym (get_or-build_rpc_packet args i l')) in
        let full : any_missing ps ≡ false = any_missing-false ps (λ i l.
          let l' : i < pieces_of args = omega (arith, h.size) in
          rw (slot i l') (omega (arith, (piece-fields i pos l').0))) in
        let content : bodies ps ≡ args.content = rw same (bodies-build_rpc_packet args) in
        rw e (
          merged-head ps (piece 0) (omega (arith, h.size)) full (slot 0 (omega arith))
          ∙ ap (λ b. some (record (piece 0) { total_pieces = 1; piece_idx = 0; body = b })) content)
  ]

  is_other-piece : (f : Option RpcPacket) (k : ℕ) → is_other f (piece k) ≡ is_other f (piece 0)
  unfolding piece_at
  is_other-piece none k = refl
  is_other-piece (some f) k = refl

  is_other_self : (j k : ℕ) → is_other (some (piece j)) (piece k) ≡ false
  unfolding piece_at
  is_other_self j k =
      rw ((int_eq_iff args.transaction_id args.transaction_id).1 refl) (rw (==_refl args.from_peer))

  -- A merger in the midst of the packet.
  record IsAmidst (ks : List (ℕ × ℕ)) (m : PacketMerger) : Type 0 where
    first : RpcPacket
    first_is : m.first_piece ≡ some first
    same : is_other (some first) (piece 0) ≡ false
    holds : Holds ks m.pieces

  store-eq-other :
      (m : PacketMerger) (k t : ℕ)
      → 0 < length args.content
      → k < pieces_of args
      → is_other m.first_piece (piece k) ≡ true
      → store m (piece k) t ≡ record {
        first_piece = some (piece k);
        pieces = set (resize (pieces_of args) []) k (piece k);
        last_updated = t;
      }
  store-eq-other m k t pos l o =
      let (total, idx, _) = piece-fields k pos l in rw o (rw total (rw idx))

  store-eq-amidst :
      (m : PacketMerger) (k t : ℕ)
      → 0 < length args.content
      → k < pieces_of args
      → is_other m.first_piece (piece k) ≡ false
      → store m (piece k) t
        ≡ record m { pieces = set (resize (pieces_of args) m.pieces) k (piece k); last_updated = t }
  store-eq-amidst m k t pos l o =
      let (total, idx, _) = piece-fields k pos l in rw o (rw total (rw idx))

  store-other :
      (m : PacketMerger) (k t : ℕ)
      → 0 < length args.content
      → k < pieces_of args
      → is_other m.first_piece (piece 0) ≡ true
      → IsAmidst ((k, t) ∷ []) (store m (piece k) t)
  store-other m k t pos l o =
      rw (store-eq-other m k t pos l (is_other-piece m.first_piece k ∙ o)) (record {
        first = piece k;
        first_is = refl;
        same = is_other_self k 0;
        holds = set-Holds [] (resize (pieces_of args) []) k t nothing l;
      })
    where
      nothing : Holds [] (resize (pieces_of args) [])
      nothing = record {
        size = length-resize (pieces_of args) [];
        slots = get_or-resize-nil (pieces_of args);
      }

  store-IsAmidst :
      (ks : List (ℕ × ℕ)) (m : PacketMerger) (k t : ℕ)
      → 0 < length args.content
      → k < pieces_of args
      → IsAmidst ks m
      → IsAmidst ((k, t) ∷ ks) (store m (piece k) t)
  store-IsAmidst ks m k t pos l v =
      rw (store-eq-amidst m k t pos l (is_other-piece m.first_piece k ∙ rw v.first_is v.same))
        (record {
          first = v.first;
          first_is = v.first_is;
          same = v.same;
          holds =
              rw (resize_self (pieces_of args) m.pieces v.holds.size)
                (set-Holds ks m.pieces k t v.holds l);
        })

  fed-IsAmidst :
      (m : PacketMerger) (k t : ℕ) (ks : List (ℕ × ℕ))
      → 0 < length args.content
      → pieces_of args ≤ 32 * 1024
      → is_other m.first_piece (piece 0) ≡ true
      → AreBelow (pieces_of args) ((k, t) ∷ ks)
      → IsAmidst ((k, t) ∷ ks) (store (fed m ks) (piece k) t)
  unfolding fed
  fed-IsAmidst m k t [] pos small o (l, ls) = store-other m k t pos l o
  fed-IsAmidst m k t ((k', t') ∷ ks) pos small o (l, ls) =
      store-IsAmidst ((k', t') ∷ ks) (feed (fed m ks) (piece k') t').0 k t pos l
        (rw (feed-store (fed m ks) k' t' pos small ls.0) (fed-IsAmidst m k' t' ks pos small o ls))

  -- The pieces that `build_rpc_packet` makes of a content that is not empty and takes at most 32768
  -- pieces arrive in any order, some more than once, at a merger that is not amidst a packet of
  -- this transaction and peer. Then the merger gives nothing as long as a piece is missing, and
  -- when the last missing one arrives (and for each repeated one after it) it gives the packet with
  -- the whole content.
  pub feed_merges :
      (m : PacketMerger) (k t : ℕ) (ks : List (ℕ × ℕ))
      → 0 < length args.content
      → pieces_of args ≤ 32 * 1024
      → is_other m.first_piece (piece 0) ≡ true
      → AreBelow (pieces_of args) ((k, t) ∷ ks)
      → (feed (fed m ks) (piece k) t).1
        ≡ ok (if covers (pieces_of args) ((k, t) ∷ ks) then some whole else none)
  unfolding try_merge_pieces
  feed_merges m k t ks pos small o ls =
      let v = fed-IsAmidst m k t ks pos small o ls in
      rw (feed-store (fed m ks) k t pos small ls.0)
        (rw (v.first_is, try_merge_pieces) (ap ok (merged-Holds ((k, t) ∷ ks) _ pos v.holds)))
