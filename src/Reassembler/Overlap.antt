-- ===== src/Reassembler/Overlap.antt =====
-- Fragments that do not overlap, and what is assembled of them
-- (easytier/src/gateway/ip_reassembler.rs).
use neo_easy_tier_deamon.Prelude.{
  ℕ, ◌+◌, ◌^◌, ◌<◌, ◌≤◌, ◌≡◌, ◌∙◌, refl, sym, ap, ltb, Bool, true, false, ◌||◌, Option, none, some,
  List, [], ◌∷◌, ◌++◌, take, drop, length, arith, replicate, length-replicate, length-append,
  length-take, length-drop, Bool-cases, inl, inr, ◌⊎◌,
}
use neo_easy_tier_deamon.Reassembler.{
  IpFragment, IpPacket, overlaps, overlaps_any, add_to_packet, is_complete, insert_by_offset,
  sort_by_offset, copy_at, copy_all, assemble, panic, assembled,
}

-- The ranges of two fragments have no byte in common.
abbrev pub Apart : IpFragment → IpFragment → Type 0
Apart f g = (f.offset + length f.bytes ≤ g.offset) ⊎ (g.offset + length g.bytes ≤ f.offset)

abbrev pub ApartFrom : IpFragment → List IpFragment → Type 0
ApartFrom f [] = Unit
ApartFrom f (g ∷ gs) = Apart f g × ApartFrom f gs

abbrev pub AreApart : List IpFragment → Type 0
AreApart [] = Unit
AreApart (f ∷ fs) = ApartFrom f fs × AreApart fs

-- The range of each fragment ends below 2 ^ 16.
abbrev pub Fits : IpFragment → Type 0
Fits f = f.offset + length f.bytes < 2 ^ 16

abbrev pub AllFit : List IpFragment → Type 0
AllFit [] = Unit
AllFit (f ∷ fs) = Fits f × AllFit fs

overlaps-Apart : (x f : IpFragment) → Fits x → Fits f → overlaps x f ≡ false → Apart x f
unfolding overlaps
overlaps-Apart x f hx hf e = ground arith

ApartFrom-append :
    (x g : IpFragment) (fs : List IpFragment)
    → ApartFrom g fs
    → Apart x g
    → ApartFrom g (fs ++ (x ∷ []))
ApartFrom-append x g [] h a = (elim a [ inl p ↦ inr p | inr p ↦ inl p ], tt)
ApartFrom-append x g (f ∷ fs) h a = (h.0, ApartFrom-append x g fs h.1 a)

AreApart-append :
    (x : IpFragment) (fs : List IpFragment)
    → Fits x
    → AllFit fs
    → AreApart fs
    → overlaps_any x fs ≡ false
    → AreApart (fs ++ (x ∷ []))
AreApart-append x [] hx hf h e = (tt, tt)
AreApart-append x (f ∷ fs) hx hf h e = (
  ApartFrom-append x f fs h.0 (overlaps-Apart x f hx hf.0 (ground arith)),
  AreApart-append x fs hx hf.1 h.1 (ground arith),
)

-- If the ranges of the new fragment and of those that are there end below 2 ^ 16, and no two of
-- those that are there have a byte in common, then none have after the new one has been offered.
pub add_to_packet-AreApart :
    (x : IpFragment) (p : IpPacket)
    → Fits x
    → AllFit p.fragments
    → AreApart p.fragments
    → AreApart (add_to_packet x p).fragments
unfolding add_to_packet
add_to_packet-AreApart x p hx hf h = elim (Bool-cases (overlaps_any x p.fragments)) [
  | inl e ↦ rw e h
  | inr e ↦ rw e (AreApart-append x p.fragments hx hf h e)
]

-- Some fragment ends beyond `n`.
abbrev pub beyond : ℕ → List IpFragment → Bool
beyond n [] = false
beyond n (f ∷ fs) = ltb n (f.offset + length f.bytes) || beyond n fs

beyond-insert :
    (n : ℕ) (f : IpFragment) (gs : List IpFragment)
    → beyond n (insert_by_offset f gs) ≡ beyond n (f ∷ gs)
beyond-insert n f [] = refl
beyond-insert n f (g ∷ gs) = ground (arith, beyond-insert n f gs)

beyond-sort : (n : ℕ) (fs : List IpFragment) → beyond n (sort_by_offset fs) ≡ beyond n fs
beyond-sort n [] = refl
beyond-sort n (f ∷ fs) =
    beyond-insert n f (sort_by_offset fs)
    ∙ ap (λ b. ltb n (f.offset + length f.bytes) || b) (beyond-sort n fs)

-- A copy keeps the length, and fails exactly where its range ends outside.
length-copy_at :
    (packet : List ℕ) (start : ℕ) (bytes : List ℕ)
    → ltb (length packet) (start + length bytes) ≡ false
    → length (take start packet ++ (bytes ++ drop (start + length bytes) packet)) ≡ length packet
length-copy_at packet start bytes h =
    rw
      (
        length-append (take start packet) (bytes ++ drop (start + length bytes) packet),
        length-append bytes (drop (start + length bytes) packet),
        length-take start packet,
        length-drop (start + length bytes) packet,
      )
      (ground arith)

copy_at_inside :
    (packet : List ℕ) (start : ℕ) (bytes : List ℕ)
    → ltb (length packet) (start + length bytes) ≡ false
    → copy_at packet start bytes
      ≡ some (take start packet ++ (bytes ++ drop (start + length bytes) packet))
unfolding copy_at
copy_at_inside packet start bytes h = rw h refl

copy_at_outside :
    (packet : List ℕ) (start : ℕ) (bytes : List ℕ)
    → ltb (length packet) (start + length bytes) ≡ true
    → copy_at packet start bytes ≡ none
unfolding copy_at
copy_at_outside packet start bytes h = rw h refl

abbrev copy_rest : List IpFragment → Option (List ℕ) → Option (List ℕ)
copy_rest fs o = elim o [ none ↦ none | some q ↦ copy_all q fs ]

copy_all-beyond :
    (packet : List ℕ) (n : ℕ) (fs : List IpFragment)
    → length packet ≡ n
    → beyond n fs ≡ true
    → copy_all packet fs ≡ none
copy_all-beyond packet n [] hl h = absurd cc
copy_all-beyond packet n (f ∷ fs) hl h =
    elim (Bool-cases (ltb (length packet) (f.offset + length f.bytes))) [
      | inl e ↦ ap (copy_rest fs) (copy_at_outside packet f.offset f.bytes e)
      | inr e ↦
          let here : ltb n (f.offset + length f.bytes) ≡ false = rw (sym hl) e in
          let rest : beyond n fs ≡ true = sym (ap (λ b. b || beyond n fs) here) ∙ h in
          ap (copy_rest fs) (copy_at_inside packet f.offset f.bytes e)
          ∙ copy_all-beyond
              (take f.offset packet ++ (f.bytes ++ drop (f.offset + length f.bytes) packet)) n fs
              (length-copy_at packet f.offset f.bytes e ∙ hl) rest
    ]

copy_all-within :
    (packet : List ℕ) (n : ℕ) (fs : List IpFragment)
    → length packet ≡ n
    → beyond n fs ≡ false
    → (out : List ℕ) × (copy_all packet fs ≡ some out) × (length out ≡ n)
copy_all-within packet n [] hl h = (packet, refl, hl)
copy_all-within packet n (f ∷ fs) hl h = elim (Bool-cases (ltb n (f.offset + length f.bytes))) [
  | inl e ↦ let bad : true ≡ false = sym (ap (λ b. b || beyond n fs) e) ∙ h in absurd cc
  | inr e ↦
      let here : ltb (length packet) (f.offset + length f.bytes) ≡ false = rw hl e in
      let rest : beyond n fs ≡ false = sym (ap (λ b. b || beyond n fs) e) ∙ h in
      let packet' : List ℕ =
        take f.offset packet ++ (f.bytes ++ drop (f.offset + length f.bytes) packet) in
      let out =
        copy_all-within packet' n fs (length-copy_at packet f.offset f.bytes here ∙ hl) rest in
      (out.0, ap (copy_rest fs) (copy_at_inside packet f.offset f.bytes here) ∙ out.1, out.2)
]

-- A packet with the total length `n` that counts as complete is assembled to `n` bytes if none of
-- its fragments ends beyond `n`, and `assemble` panics if one does.
pub assemble_complete :
    (n : ℕ) (p : IpPacket)
    → p.total_length ≡ some n
    → is_complete p ≡ true
    → (beyond n p.fragments ≡ true → (assemble p).1 ≡ panic)
      × (beyond n p.fragments ≡ false
          → (out : List ℕ) × ((assemble p).1 ≡ assembled out) × (length out ≡ n))
unfolding assemble
assemble_complete n p ht hc =
    rw (hc, ht)
      (
        (λ h.
            rw
              (copy_all-beyond (replicate n 0) n (sort_by_offset p.fragments) (length-replicate n 0)
                (beyond-sort n p.fragments ∙ h))
              refl),
        (λ h.
            let r =
              copy_all-within (replicate n 0) n (sort_by_offset p.fragments) (length-replicate n 0)
                (beyond-sort n p.fragments ∙ h) in
            (r.0, rw r.1 refl, r.2)),
      )
