-- ===== src/Equipment/PageCheck/Clean.antt =====
-- Pages without an error.
use readout.DataBlock.{DataBlockHeader, undefined_link_id}
use readout.Prelude.{
  Bool-cases, Option, ap, arith, false, inl, inr, ltb, none, not, refl, some, subst, suc, zero, ℕ,
  ◌+◌, ◌-◌, ◌<◌, ◌==◌, ◌∙◌, ◌≡◌, ◌≢◌, ◌≤◌, ◌⊎◌,
}
use readout.Rdh.{Rdh}
use readout.Equipment.PageCheck.{
  Checks, Settings, check_packet, check_packets, check_page, page_link,
}
use readout.Equipment.PageCheck.Packet.{IsGood, check_packet_cases, errors, packets}

-- The packets of a page, from the one at an offset, each found by the offset in the one before.
pub data Visits (rdh_at : ℕ → Rdh) (size : ℕ) : ℕ → ℕ → Type 0 where
  here : {offset : ℕ} → offset < size → Visits rdh_at size offset offset
  next :
      {offset other : ℕ}
      → offset < size
      → (rdh_at offset).offset_next_packet ≢ 0
      → Visits rdh_at size (offset + (rdh_at offset).offset_next_packet) other
      → Visits rdh_at size offset other

Visits-lt :
    {rdh_at : ℕ → Rdh} {size offset other : ℕ} → Visits rdh_at size offset other → offset < size
Visits-lt (here h) = h
Visits-lt (next h n v) = h

module _ (g : Settings) (bh : DataBlockHeader) (rdh_at : ℕ → Rdh) where
  -- What the loop yields from an offset on.
  pub record Outcome (offset link index : ℕ) (c : Checks) (n : ℕ) (c' : Checks) : Type 0 where
    pub counted : packets c' + index ≡ packets c + n
    pub one_error : (errors c' ≡ errors c) ⊎ (errors c' ≡ suc (errors c))
    pub clean :
        errors c' ≡ errors c
        → (other : ℕ) → Visits rdh_at bh.data_size offset other
        → IsGood g bh (page_link link offset (rdh_at offset)) (rdh_at other)

  finished :
      (offset link index : ℕ) (c : Checks)
      → bh.data_size ≤ offset
      → Outcome offset link index c index c
  finished offset link index c h = record {
    counted = refl;
    one_error = inl refl;
    clean = λ e other v. absurd (omega (arith, Visits-lt v));
  }

  -- A packet that is wrong ends the page.
  failed :
      (offset link index : ℕ) (c c' : Checks)
      → packets c' ≡ suc (packets c)
      → errors c' ≡ suc (errors c)
      → Outcome offset link index c (index + 1) c'
  failed offset link index c c' p e = record {
    counted = omega arith;
    one_error = inr e;
    clean = λ f other v. absurd (omega arith);
  }

  -- So does one with no next packet.
  last :
      (offset link index : ℕ) (c c' : Checks)
      → packets c' ≡ suc (packets c)
      → errors c' ≡ errors c
      → IsGood g bh (page_link link offset (rdh_at offset)) (rdh_at offset)
      → (rdh_at offset).offset_next_packet ≡ 0
      → Outcome offset link index c (index + 1) c'
  last offset link index c c' p e k z = record {
    counted = omega arith;
    one_error = inl e;
    clean = λ f other v. only other v;
  }
    where
      only :
          (other : ℕ)
          → Visits rdh_at bh.data_size offset other
          → IsGood g bh (page_link link offset (rdh_at offset)) (rdh_at other)
      only other (here h) = k
      only other (next h n v) = absurd (n z)

  continued :
      (offset link index : ℕ) (c c' : Checks) (n : ℕ) (c'' : Checks)
      → packets c' ≡ suc (packets c)
      → errors c' ≡ errors c
      → IsGood g bh (page_link link offset (rdh_at offset)) (rdh_at offset)
      → (rdh_at offset).offset_next_packet ≢ 0
      → Outcome
          (offset + (rdh_at offset).offset_next_packet)
          (page_link link offset (rdh_at offset))
          (index + 1)
          c'
          n
          c''
      → Outcome offset link index c n c''
  continued offset link index c c' n c'' p e k z o = record {
    counted = omega (arith, o.counted);
    one_error = ground (arith, o.one_error);
    clean = λ f other v. each (omega arith) other v;
  }
    where
      same :
          page_link
            (page_link link offset (rdh_at offset))
            (offset + (rdh_at offset).offset_next_packet)
            (rdh_at (offset + (rdh_at offset).offset_next_packet))
          ≡ page_link link offset (rdh_at offset)
      same =
          let q : ((offset + (rdh_at offset).offset_next_packet) == 0) ≡ false = ground arith in
          rw (q) refl

      each :
          errors c'' ≡ errors c'
          → (other : ℕ) → Visits rdh_at bh.data_size offset other
          → IsGood g bh (page_link link offset (rdh_at offset)) (rdh_at other)
      each f other (here h) = k
      each f other (next h n v) = subst (λ l. IsGood g bh l (rdh_at other)) same (o.clean f other v)

  check_packets-Outcome :
      (fuel offset link index : ℕ) (c : Checks)
      → bh.data_size - offset < fuel
      → (n : ℕ) × (c' : Checks) × (check_packets g bh rdh_at fuel offset link index c
          ≡ some (n, c'))
        × Outcome offset link index c n c'
  unfolding check_packets
  check_packets-Outcome zero offset link index c h = absurd (omega arith)
  check_packets-Outcome (suc fuel) offset link index c h =
      let r = rdh_at offset in
      let l = page_link link offset r in
      let c' = (check_packet g bh l offset r c).1 in
      let (p, q) = check_packet_cases g bh l offset r c in
      elim (Bool-cases (ltb offset bh.data_size)) [
        | inr a ↦ (index, c, rw (a) refl, finished offset link index c (ground arith))
        | inl a ↦ elim q [
          | inr (f, e) ↦ (index + 1, c', rw (a, f) refl, failed offset link index c c' p e)
          | inl (k, f, e) ↦ elim (Bool-cases (r.offset_next_packet == 0)) [
            | inl z ↦ (
              index + 1,
              c',
              rw (a, f ∙ ap not z) refl,
              last offset link index c c' p e k (ground arith),
            )
            | inr z ↦
                let (n, c'', eq, o) =
                  check_packets-Outcome fuel (offset + r.offset_next_packet) l (index + 1) c'
                    (ground arith) in
                (
                  n,
                  c'',
                  rw (a, f ∙ ap not z) eq,
                  continued offset link index c c' n c'' p e k (ground arith) o,
                )
          ]
        ]
      ]

-- The check of a page ends, whatever its headers are, and counts each packet that it looks at as
-- right or wrong. Either it counts one error, or it counts none: then all packets of the page have a
-- valid header, the link of the first one, an orbit in the range of the block if timeframes are
-- used, and an aligned orbit at the beginning of a timeframe if triggers are checked.
pub check_page_lem :
    (g : Settings) (bh : DataBlockHeader) (rdh_at : ℕ → Rdh) (c : Checks)
    → (n : ℕ) × (c' : Checks) × (check_page g bh rdh_at c ≡ some (n, c'))
      × (packets c' ≡ packets c + n)
      × (((errors c' ≡ errors c)
            × ((other : ℕ)
                → Visits rdh_at bh.data_size 0 other
                → IsGood g bh (rdh_at 0).link_id (rdh_at other)))
          ⊎ (errors c' ≡ suc (errors c)))
unfolding check_page
check_page_lem g bh rdh_at c =
    let (n, c', e, o) =
      check_packets-Outcome g bh rdh_at (suc bh.data_size) 0 undefined_link_id 0 c (omega arith) in
    (
      n,
      c',
      e,
      omega (arith, o.counted),
      elim o.one_error [ inl k ↦ inl (k, o.clean k) | inr k ↦ inr k ],
    )

result_or : Checks → Option (ℕ × Checks) → Checks
result_or c none = c
result_or c (some (n, c')) = c'
