-- ===== src/FmqChannel/Packets.antt =====
-- src/ConsumerFMQchannel.cxx, DDformatMessage: the walk over the packets of a page, which both of its
-- passes make.
use readout.Prelude.{
  List, [], arith, if◌then◌else◌, inl, leb, refl, suc, zero, ℕ, ◌+◌, ◌<◌, ◌==◌, ◌∷◌, ◌≡◌, ◌≤◌, ◌⊎◌,
}
use readout.Rdh.{Rdh, rdh_size}

-- The offsets at which the body of `for (int offset = 0; offset + 64 <= dataSize;)` runs.
unfoldable pub offsets_from : ℕ → (ℕ → Rdh) → ℕ → ℕ → List ℕ
offsets_from zero rdh_at size offset = []
offsets_from (suc fuel) rdh_at size offset =
    let next = (rdh_at offset).offset_next_packet in
    let rest = offsets_from fuel rdh_at size (offset + next) in
    if leb (offset + rdh_size) size then offset ∷ (if next == 0 then [] else rest) else []

abbrev pub packet_offsets : (ℕ → Rdh) → ℕ → List ℕ
packet_offsets rdh_at size = offsets_from (suc size) rdh_at size 0

-- The fuel does not run out: with more of it, the walk over the packets of a page is the same.
pub offsets_from-more :
    (fuel more : ℕ) (rdh_at : ℕ → Rdh) (size offset : ℕ)
    → size < fuel + offset
    → fuel ≤ more
    → offsets_from more rdh_at size offset ≡ offsets_from fuel rdh_at size offset
unfolding offsets_from
offsets_from-more zero zero rdh_at size offset h m = refl
offsets_from-more zero (suc more) rdh_at size offset h m = ground arith
offsets_from-more (suc fuel) zero rdh_at size offset h m = ground arith
offsets_from-more (suc fuel) (suc more) rdh_at size offset h m =
    grind
      (arith, offsets_from-more fuel more rdh_at size (offset + (rdh_at offset).offset_next_packet))

-- Where the bytes of a packet end: at the next packet, or with the page.
abbrev pub next_or_end : List ℕ → ℕ → ℕ
next_or_end [] size = size
next_or_end (o ∷ os) size = o

-- The walk starts where it is told to, if there is room for a header there.
pub next_or_end-offsets_from :
    (fuel : ℕ) (rdh_at : ℕ → Rdh) (size offset : ℕ)
    → (offsets_from fuel rdh_at size offset ≡ [])
      ⊎ ((next_or_end (offsets_from fuel rdh_at size offset) size ≡ offset) × (offset ≤ size))
unfolding offsets_from
next_or_end-offsets_from zero rdh_at size offset = inl refl
next_or_end-offsets_from (suc fuel) rdh_at size offset = ground arith
