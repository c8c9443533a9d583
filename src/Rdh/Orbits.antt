-- ===== src/Rdh/Orbits.antt =====
-- Checks of a header, and walks over packets.
use readout.Rdh.{Rdh, one_if, print_summary, rdh_max_link_id, rdh_size, validate_rdh, walk_packets}
use readout.Prelude.{
  Bool, Bool-cases, arith, false, inl, inr, ltb, not, some, suc, true, zero, ℕ, ◌&&◌, ◌+◌, ◌-◌, ◌<◌,
  ◌==◌, ◌↔◌, ◌≡◌, ◌≤◌, ◌⊎◌,
}

-- What a valid header is.
pub record IsValid (h : Rdh) : Type 0 where
  pub version_known : (h.version ≡ 5) ⊎ (h.version ≡ 6) ⊎ (h.version ≡ 7)
  pub size_right : h.header_size ≡ 64
  pub link_known : h.link_id ≤ 31
  pub next_right : (h.offset_next_packet ≡ 0) ⊎ (64 ≤ h.offset_next_packet)

-- `validateRdh` reports no error exactly for a header of version 5, 6 or 7 with the size of a
-- header, a link from 0 to 31, and a next packet that is absent or behind the header; and it never
-- reports more than four.
pub validate_rdh_iff : (h : Rdh) → ((validate_rdh h ≡ 0) ↔ IsValid h) × (validate_rdh h ≤ 4)
unfolding validate_rdh
validate_rdh_iff h = (valid_iff, ground arith)
  where
    valid_iff :
        (one_if (not (h.version == 5) && not (h.version == 6) && not (h.version == 7))
            + one_if (not (h.header_size == rdh_size))
            + one_if (ltb rdh_max_link_id h.link_id)
            + one_if (ltb 0 h.offset_next_packet && ltb h.offset_next_packet rdh_size)
          ≡ 0)
        ↔ IsValid h
    valid_iff = (
      λ e. record {
        version_known = ground arith;
        size_right = ground arith;
        link_known = ground arith;
        next_right = ground arith;
      },
      λ v. ground (arith, v),
    )

-- Where a walk from `n` packets and some bytes stops, after `m` packets.
abbrev pub Stops : ℕ → ℕ → ℕ → Type 0
Stops bytes_left n m = ((64 ≤ bytes_left) × (n < m)) ⊎ ((bytes_left < 64) × (m ≡ n))

longer : (k n m bytes_left : ℕ) → 64 ≤ bytes_left → Stops k (n + 1) m → Stops bytes_left n m
longer k n m bytes_left h s = ground arith

-- The walk ends if the fuel is more than the bytes that are left.
walk_packets_total :
    (fuel : ℕ) (rdh_at : ℕ → Rdh) (offset bytes_left n : ℕ)
    → bytes_left < fuel
    → (ok : Bool) × (m : ℕ) × (walk_packets fuel rdh_at offset bytes_left n ≡ some (ok, m))
      × Stops bytes_left n m
unfolding walk_packets
walk_packets_total zero rdh_at offset bytes_left n h = absurd (omega arith)
walk_packets_total (suc fuel) rdh_at offset bytes_left n h =
    let next = (rdh_at offset).offset_next_packet in
    elim (Bool-cases (ltb bytes_left rdh_size)) [
      | inl a ↦ (false, n, rw a, ground arith)
      | inr a ↦ elim (Bool-cases (next == 0)) [
        | inl b ↦ (true, n + 1, rw (a, b), ground arith)
        | inr b ↦ elim (Bool-cases (ltb bytes_left next)) [
          | inl c ↦ (false, n + 1, rw (a, b, c), ground arith)
          | inr c ↦ elim (Bool-cases (bytes_left == next)) [
            | inl d ↦ (true, n + 1, rw (a, b, c, d), ground arith)
            | inr d ↦
                let (ok, m, e, s) =
                  walk_packets_total fuel rdh_at (offset + next) (bytes_left - next) (n + 1)
                    (ground arith) in
                (ok, m, rw (a, b, c, d) e, longer _ n m bytes_left (ground arith) s)
          ]
        ]
      ]
    ]

-- The walk over the packets of a block ends, whatever their headers are; it looks at one packet at
-- least where the block has room for a header, and at none otherwise.
pub print_summary_total :
    (rdh_at : ℕ → Rdh) (block_size : ℕ)
    → (ok : Bool) × (n : ℕ) × (print_summary rdh_at block_size ≡ some (ok, n))
      × Stops block_size 0 n
unfolding print_summary
print_summary_total rdh_at block_size =
    walk_packets_total (suc block_size) rdh_at 0 block_size 0 (omega arith)
