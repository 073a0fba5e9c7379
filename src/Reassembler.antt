-- ===== src/Reassembler.antt =====
-- The IPv4 reassembler of easytier/src/gateway/ip_reassembler.rs. The fields of a packet (which
-- pnet reads) are arguments, and so is the clock. The map of packets (a DashMap) is a list.
pub mod Compose
pub mod Overlap
use neo_easy_tier_deamon.Prelude.{
  ℕ, zero, suc, ◌+◌, ◌-◌, ◌*◌, ◌/◌, ◌%◌, ◌^◌, ltb, leb, Bool, true, false, ◌||◌, ◌&&◌, not, Option,
  none, some, List, [], ◌∷◌, ◌++◌, ◌==◌, if◌then◌else◌, take, drop, length, replicate,
}

-- `u16` addition, subtraction and `as u16`
abbrev pub u16 : ℕ → ℕ
u16 n = n % 2 ^ 16

abbrev pub u16_sub : ℕ → ℕ → ℕ
u16_sub a b = (a + 2 ^ 16 - b) % 2 ^ 16

pub record IpFragment : Type 0 where
  pub id : ℕ
  pub offset : ℕ
  pub bytes : List ℕ

-- `Ipv4Packet`: the fields that the reassembler reads. A fragment offset has 13 bits.
pub record Ipv4Packet : Type 0 where
  pub identification : ℕ
  pub fragment_offset : ℕ
  pub more_fragments : Bool
  pub total_length : ℕ
  pub header_length : ℕ
  pub payload : List ℕ

-- `impl From<&Ipv4Packet> for IpFragment`
abbrev pub fragment_of : Ipv4Packet → IpFragment
fragment_of p = record {
  id = p.identification;
  offset = u16 (p.fragment_offset * 8);
  bytes = p.payload;
}

pub record IpPacket : Type 0 where
  pub source : ℕ
  pub destination : ℕ
  pub total_length : Option ℕ
  pub fragments : List IpFragment

abbrev pub new_packet : ℕ → ℕ → IpPacket
new_packet source destination = record {
  source = source;
  destination = destination;
  total_length = none;
  fragments = [];
}

-- The two tests of the loop of `IpPacket::add_fragment`, for a fragment `f` that is there.
unfoldable pub overlaps : IpFragment → IpFragment → Bool
overlaps fragment f =
    (leb f.offset fragment.offset && ltb fragment.offset (u16 (f.offset + u16 (length f.bytes))))
    || (leb fragment.offset f.offset
        && ltb f.offset (u16 (fragment.offset + u16 (length fragment.bytes))))

abbrev pub overlaps_any : IpFragment → List IpFragment → Bool
overlaps_any fragment [] = false
overlaps_any fragment (f ∷ fs) = overlaps fragment f || overlaps_any fragment fs

-- `IpPacket::add_fragment`
unfoldable pub add_to_packet : IpFragment → IpPacket → IpPacket
add_to_packet fragment p =
    if overlaps_any fragment p.fragments
    then p
    else record p { fragments = p.fragments ++ (fragment ∷ []) }

-- The sum of the lengths, which wraps.
abbrev pub sum_lengths : ℕ → List IpFragment → ℕ
sum_lengths acc [] = acc
sum_lengths acc (f ∷ fs) = sum_lengths (u16 (acc + u16 (length f.bytes))) fs

unfoldable pub is_complete : IpPacket → Bool
is_complete p = elim p.total_length [ none ↦ false | some n ↦ sum_lengths 0 p.fragments == n ]

-- `fragments.sort_by_key(|f| f.offset)`: a stable sort, here by insertion.
abbrev pub insert_by_offset : IpFragment → List IpFragment → List IpFragment
insert_by_offset f [] = f ∷ []
insert_by_offset f (g ∷ gs) =
    let rest = insert_by_offset f gs in if leb f.offset g.offset then f ∷ g ∷ gs else g ∷ rest

abbrev pub sort_by_offset : List IpFragment → List IpFragment
sort_by_offset [] = []
sort_by_offset (f ∷ fs) = insert_by_offset f (sort_by_offset fs)

-- `packet[start..end].copy_from_slice(&data)`; `none` is the panic where the range ends outside.
unfoldable pub copy_at : List ℕ → ℕ → List ℕ → Option (List ℕ)
copy_at packet start bytes =
    if ltb (length packet) (start + length bytes)
    then none
    else some (take start packet ++ (bytes ++ drop (start + length bytes) packet))

abbrev pub copy_all : List ℕ → List IpFragment → Option (List ℕ)
copy_all packet [] = some packet
copy_all packet (f ∷ fs) = elim (copy_at packet f.offset f.bytes) [
  | none ↦ none
  | some packet' ↦ copy_all packet' fs
]

-- What `assemble` gives: nothing yet, the packet, or a panic.
pub data Assembled : Type 0 where
  incomplete panic : Assembled
  assembled : List ℕ → Assembled

abbrev pub of_copy : Option (List ℕ) → Assembled
of_copy none = panic
of_copy (some packet) = assembled packet

-- `assemble` sorts the fragments of the packet that it is called on.
unfoldable pub assemble : IpPacket → IpPacket × Assembled
unfolding is_complete copy_at
assemble p =
    if is_complete p
    then (
      record p { fragments = sort_by_offset p.fragments },
      elim p.total_length [
        | none ↦ incomplete
        | some n ↦ of_copy (copy_all (replicate n 0) (sort_by_offset p.fragments))
      ],
    )
    else (p, incomplete)

pub record Key : Type 0 where
  pub source : ℕ
  pub destination : ℕ
  pub id : ℕ

abbrev pub key_eq : Key → Key → Bool
key_eq a b = a.source == b.source && (a.destination == b.destination && a.id == b.id)

pub record Value : Type 0 where
  pub packet : IpPacket
  pub timestamp : ℕ

abbrev pub Packets : Type 0
Packets = List (Key × Value)

abbrev pub find : Key → Packets → Option Value
find k [] = none
find k ((j, v) ∷ m) = let rest = find k m in if key_eq j k then some v else rest

abbrev pub remove : Key → Packets → Packets
remove k [] = []
remove k ((j, v) ∷ m) = let rest = remove k m in if key_eq j k then rest else (j, v) ∷ rest

-- `entry(key).or_insert_with(..)`
abbrev pub or_new : Option Value → ℕ → ℕ → ℕ → Value
or_new none source destination now = record {
  packet = new_packet source destination;
  timestamp = now;
}
or_new (some v) source destination now = v

unfoldable pub is_packet_fragmented : Ipv4Packet → Bool
is_packet_fragmented p = not (p.fragment_offset == 0) || p.more_fragments

abbrev pub is_last_fragment : Ipv4Packet → Bool
is_last_fragment p = not p.more_fragments

-- The packet of an entry after a fragment.
unfoldable pub take_fragment : Ipv4Packet → ℕ → IpPacket → IpPacket
unfolding add_to_packet
take_fragment p total_length packet =
    let sized : IpPacket =
      if is_last_fragment p
      then record packet { total_length = some (u16 (total_length + (fragment_of p).offset)) }
      else packet in
    add_to_packet (fragment_of p) sized

-- `IpReassembler::add_fragment`, from what `assemble` gave on.
abbrev pub conclude : Key → Packets → ℕ → IpPacket × Assembled → Packets × Assembled
conclude key packets now (packet, assembled bytes) = (remove key packets, assembled bytes)
conclude key packets now (packet, incomplete) =
    ((key, record { packet = packet; timestamp = now }) ∷ remove key packets, incomplete)
conclude key packets now (packet, panic) = (packets, panic)

unfoldable pub add_fragment : Packets → ℕ → ℕ → Ipv4Packet → ℕ → Packets × Assembled
unfolding take_fragment assemble
add_fragment packets source destination p now =
    let total_length = u16_sub p.total_length (u16 (p.header_length * 4)) in
    let key : Key = record { source = source; destination = destination; id = p.identification } in
    if total_length == u16 (length p.payload)
    then conclude key packets now (
        assemble
          (take_fragment p total_length (or_new (find key packets) source destination now).packet))
    else (packets, incomplete)

-- `remove_expired_packets`, with the timeout in the clock's unit.
unfoldable pub remove_expired_packets : ℕ → ℕ → Packets → Packets
remove_expired_packets timeout now [] = []
remove_expired_packets timeout now ((k, v) ∷ m) =
    let rest = remove_expired_packets timeout now m in
    if leb (now - v.timestamp) timeout then (k, v) ∷ rest else rest
