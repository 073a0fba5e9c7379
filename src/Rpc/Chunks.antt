-- ===== src/Rpc/Chunks.antt =====
-- The pieces that `build_rpc_packet` makes (easytier/src/proto/rpc_impl/packet.rs).
use neo_easy_tier_deamon.Prelude.{
  ℕ, zero, suc, ◌+◌, ◌-◌, ◌*◌, ◌<◌, ◌≤◌, ◌≡◌, ◌∙◌, refl, sym, ap, ltb, true, List, [], ◌∷◌, ◌++◌,
  ◌==◌, if◌then◌else◌, take, drop, length, get_or, arith, drop-drop, drop-all, take-append-drop,
  Bool-cases, inl, inr, lt→ltb, max,
}
use neo_easy_tier_deamon.Rpc.{
  BuildRpcPacketArgs, content_mtu, div_ceil, piece_at, build_loop, build_rpc_packet, bodies,
  default_packet,
}

build_loop-done :
    (fuel : ℕ) (args : BuildRpcPacketArgs) (off : ℕ)
    → length args.content ≤ off
    → build_loop fuel args off ≡ []
unfolding build_loop
build_loop-done zero args off h = refl
build_loop-done (suc fuel) args off h = ground arith

-- How far the loop goes at an offset.
abbrev chunk : ℕ → ℕ → ℕ
chunk len off = if ltb len (off + content_mtu) then len - off else content_mtu

abbrev next : ℕ → ℕ → ℕ
next len off = if ltb len (off + content_mtu) then len else off + content_mtu

next-eq-add : (len off : ℕ) → off < len → next len off ≡ off + chunk len off
next-eq-add len off h = ground arith

-- The bodies make up the rest of the content.
bodies-build_loop :
    (fuel : ℕ) (args : BuildRpcPacketArgs) (off : ℕ)
    → length args.content ≤ off + fuel
    → bodies (build_loop fuel args off) ≡ drop off args.content
unfolding build_loop piece_at
bodies-build_loop zero args off h = sym (drop-all off args.content (omega arith))
bodies-build_loop (suc fuel) args off h = elim (Bool-cases (ltb off (length args.content))) [
  | inl lt ↦
      let len = length args.content in
      rw lt (
        rw (next-eq-add len off (ground arith)) (
          rw (bodies-build_loop fuel args (off + chunk len off) (ground arith)) (
            rw (← drop-drop off (chunk len off) args.content)
              (take-append-drop (chunk len off) (drop off args.content)))))
  | inr ge ↦ rw ge (sym (drop-all off args.content (ground arith)))
]

-- How many pieces there are.
length-build_loop :
    (fuel k : ℕ) (args : BuildRpcPacketArgs)
    → length args.content ≤ k * content_mtu + fuel
    → length (build_loop fuel args (k * content_mtu))
      ≡ div_ceil (length args.content) content_mtu - k
unfolding build_loop
length-build_loop zero k args h = omega arith
length-build_loop (suc fuel) k args h =
    elim (Bool-cases (ltb (k * content_mtu) (length args.content))) [
      | inr ge ↦ rw ge (ground arith)
      | inl lt ↦ elim (Bool-cases (ltb (length args.content) (k * content_mtu + content_mtu))) [
        | inl last ↦
            rw (lt, last)
              (rw (build_loop-done fuel args (length args.content) (omega arith)) (ground arith))
        | inr more ↦
            let e : k * content_mtu + content_mtu ≡ (k + 1) * content_mtu = omega arith in
            rw (lt, more) (rw e (ground (arith, length-build_loop fuel (k + 1) args (omega arith))))
      ]
    ]

-- Where the pieces lie.
get_or-build_loop :
    (fuel k i : ℕ) (args : BuildRpcPacketArgs)
    → length args.content ≤ k * content_mtu + fuel
    → (k + i) * content_mtu < length args.content
    → get_or (build_loop fuel args (k * content_mtu)) i default_packet
      ≡ piece_at args ((k + i) * content_mtu)
unfolding build_loop
get_or-build_loop zero k i args h hi = absurd (omega arith)
get_or-build_loop (suc fuel) k zero args h hi =
    let lt : ltb (k * content_mtu) (length args.content) ≡ true = lt→ltb _ _ (omega arith) in
    rw lt (ap (piece_at args) (omega arith))
get_or-build_loop (suc fuel) k (suc i) args h hi =
    let lt : ltb (k * content_mtu) (length args.content) ≡ true = lt→ltb _ _ (omega arith) in
    let e : next (length args.content) (k * content_mtu) ≡ (k + 1) * content_mtu = ground arith in
    rw lt (
      rw e (
        get_or-build_loop fuel (k + 1) i args (omega arith) (omega arith)
        ∙ ap (λ n. piece_at args (n * content_mtu)) (omega arith)))

-- The number of pieces of a content, as `build_rpc_packet` makes them: at least one.
abbrev pub pieces_of : BuildRpcPacketArgs → ℕ
pieces_of args = max 1 (div_ceil (length args.content) content_mtu)

pub length-build_rpc_packet :
    (args : BuildRpcPacketArgs) → length (build_rpc_packet args) ≡ pieces_of args
unfolding build_rpc_packet
length-build_rpc_packet args = elim (Bool-cases (length args.content == 0)) [
  | inl e ↦ rw e (ground arith)
  | inr e ↦ rw e (ground (arith, length-build_loop (length args.content) 0 args (omega arith)))
]

pub get_or-build_rpc_packet :
    (args : BuildRpcPacketArgs) (i : ℕ)
    → i < pieces_of args
    → get_or (build_rpc_packet args) i default_packet ≡ piece_at args (i * content_mtu)
unfolding build_rpc_packet
get_or-build_rpc_packet args i h = elim (Bool-cases (length args.content == 0)) [
  | inl e ↦ rw e (one i (ground arith))
  | inr e ↦ rw e (
      get_or-build_loop (length args.content) 0 i args (omega arith) (ground arith)
      ∙ ap (λ n. piece_at args (n * content_mtu)) (omega arith))
]
  where
    one :
        (i : ℕ)
        → i < 1
        → get_or (piece_at args 0 ∷ []) i default_packet ≡ piece_at args (i * content_mtu)
    one zero h = refl
    one (suc i) h = absurd (omega arith)

take-empty : (n : ℕ) (xs : List ℕ) → length xs ≡ 0 → take n xs ++ [] ≡ xs
take-empty zero [] h = refl
take-empty (suc n) [] h = refl
take-empty n (x ∷ xs) h = absurd (omega arith)

bodies-empty :
    (args : BuildRpcPacketArgs)
    → length args.content ≡ 0
    → bodies (piece_at args 0 ∷ []) ≡ args.content
unfolding piece_at
bodies-empty args h = take-empty _ args.content h

-- For any content the bodies of the pieces that `build_rpc_packet` makes, one after the other, are
-- the content.
pub bodies-build_rpc_packet :
    (args : BuildRpcPacketArgs) → bodies (build_rpc_packet args) ≡ args.content
unfolding build_rpc_packet
bodies-build_rpc_packet args = elim (Bool-cases (length args.content == 0)) [
  | inl e ↦ rw e (bodies-empty args (ground arith))
  | inr e ↦ rw e (bodies-build_loop (length args.content) args 0 (omega arith))
]
