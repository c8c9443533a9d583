-- ===== src/FileRecorder/Push/Steps.antt =====
-- The steps of the loop over the packets of a page of valid packets.
use mathlib.Core.Bool.{false≢true}
use readout.FileRecorder.File.{Chunk}
use readout.FileRecorder.Files.{Packet, no_packet}
use readout.FileRecorder.Push.Filter.{Item, is_kept_start, scan, to_list}
use readout.FileRecorder.Push.{
  Scan, Sink, is_empty_hb_start, is_empty_hb_stop, write_packet, write_previous,
}
use readout.Rdh.{Rdh, validate_rdh}
use readout.Prelude.{
  Bool, Bool-cases, List, Option, [], ap, arith, false, if-intro, if◌then◌else◌, inl, inr, length,
  length-append, none, not, refl, some, suc, sym, true, zero, ℕ, ◌&&◌, ◌++◌, ◌+◌, ◌<◌, ◌==◌, ◌∙◌,
  ◌∷◌, ◌≡◌, ◌≤◌,
}

abbrev pub dropped_two : Scan → Scan
dropped_two k = record k {
  previous = no_packet;
  empty_packets_dropped = k.empty_packets_dropped + 2;
}

pub not_both : {b : Bool} → b ≡ true → ¬ (not b ≡ true)
not_both h e = false≢true (ap not (sym h) ∙ e)

module _ {S : Type 0} (sink : Sink S) (mask : ℕ) (rdh_at : ℕ → Rdh) (base block_size tf : ℕ) where
  -- There are that many packets from an offset to the end of the page, each valid and with a length.
  abbrev pub IsPage : ℕ → ℕ → Type 0
  IsPage offset zero = block_size ≤ offset
  IsPage offset (suc n) =
      let h = rdh_at (base + offset) in
      (offset < block_size)
      × (validate_rdh h ≡ 0)
      × (1 ≤ h.offset_next_packet)
      × IsPage (offset + h.offset_next_packet) n

  abbrev pub item : ℕ → Item
  item offset =
      let h = rdh_at (base + offset) in
      record {
        rdh = h;
        chunk = record { address = base + offset; size = h.offset_next_packet };
        tf = tf;
      }

  abbrev pub items : ℕ → ℕ → List Item
  items offset zero = []
  items offset (suc n) =
      item offset ∷ items (offset + (rdh_at (base + offset)).offset_next_packet) n

  -- The packet kept aside of a scan.
  abbrev pub IsKept : Packet → Option Item → Type 0
  IsKept p none = (p.is_empty_hb_start ≡ false) × (p.address ≡ 0)
  IsKept p (some a) =
      (p.is_empty_hb_start ≡ true)
      × (is_empty_hb_start mask a.rdh ≡ true)
      × (1 ≤ p.address)
      × (record { address = p.address; size = p.size } ≡ a.chunk)
      × (p.timeframe_id ≡ a.tf)

  -- The files after some packets, when all are taken.
  abbrev pub put_all : List Item → S → S
  put_all [] s = s
  put_all (a ∷ l) s = put_all l (sink.put a.chunk a.tf s).1

  -- States in which each write succeeds.
  pub record IsTaking (Good : S → Type 0) : Type 0 where
    pub good_file : (s : S) → Good s → sink.has_file s ≡ true
    pub good_put : (c : Chunk) (t : ℕ) (s : S) → Good s → (sink.put c t s).0 ≡ true
    pub good_next : (c : Chunk) (t : ℕ) (s : S) → Good s → Good (sink.put c t s).1

  put_all-append : (l m : List Item) (s : S) → put_all (l ++ m) s ≡ put_all m (put_all l s)
  put_all-append [] m s = refl
  put_all-append (a ∷ l) m s = put_all-append l m (sink.put a.chunk a.tf s).1

  -- What a step does to a scan and to the files: it writes some packets, keeps one aside, and
  -- drops some.
  pub record Passed (k : Scan) (s : S) (written : List Item) (kept : Option Item) (n : ℕ)
      (r : Bool × Scan × S) : Type 0 where
    pub returns : r.0 ≡ true
    pub written_all : r.2 ≡ put_all written s
    pub keeps : IsKept r.1.previous kept
    pub recorded : r.1.packets_recorded ≡ k.packets_recorded + length written
    pub dropped : r.1.empty_packets_dropped ≡ k.empty_packets_dropped + n
    pub no_invalid : r.1.invalid_rdh ≡ k.invalid_rdh

  pub Passed-then :
      {k : Scan} {s : S} {w w' : List Item} {p p' : Option Item} {m n n' : ℕ}
      {r r' : Bool × Scan × S}
      → n' ≡ m + n
      → Passed k s w p m r
      → Passed r.1 r.2 w' p' n r'
      → Passed k s (w ++ w') p' n' r'
  Passed-then {s} {w} {w'} e h h' = record {
    returns = h'.returns;
    written_all = h'.written_all ∙ ap (put_all w') h.written_all ∙ sym (put_all-append w w' s);
    keeps = h'.keeps;
    recorded = omega (arith, h.recorded, h'.recorded, length-append w w');
    dropped = omega (arith, h.dropped, h'.dropped, e);
    no_invalid = h'.no_invalid ∙ h.no_invalid;
  }

  module _ (Good : S → Type 0) (t : IsTaking Good) where
    pub put_all-Good : (l : List Item) (s : S) → Good s → Good (put_all l s)
    put_all-Good [] s g = g
    put_all-Good (a ∷ l) s g = put_all-Good l _ (t.good_next a.chunk a.tf s g)

    pub write_previous_lem :
        (kept : Option Item) (k : Scan) (s : S)
        → Good s
        → IsKept k.previous kept
        → Passed k s (to_list kept) none 0 (write_previous sink mask rdh_at base block_size tf k s)
    write_previous_lem none k s g q =
        if-intro (Passed k s [] none 0) (k.previous.address == 0)
          (λ e. record {
            returns = refl;
            written_all = refl;
            keeps = q;
            recorded = omega arith;
            dropped = omega arith;
            no_invalid = refl;
          })
          λ e. absurd (ground (arith, q.1))
    write_previous_lem (some a) k s g q =
        let c : Chunk = record { address = k.previous.address; size = k.previous.size } in
        let same : sink.put c k.previous.timeframe_id s ≡ sink.put a.chunk a.tf s = cc in
        if-intro (Passed k s (a ∷ []) none 0) (k.previous.address == 0)
          (λ e. absurd (ground (arith, q.2)))
          λ e.
            if-intro (Passed k s (a ∷ []) none 0) (sink.put c k.previous.timeframe_id s).0
              (λ ok. record {
                returns = refl;
                written_all = ap (λ x. x.1) same;
                keeps = (refl, refl);
                recorded = omega arith;
                dropped = omega arith;
                no_invalid = refl;
              })
              λ no. absurd (false≢true (sym no ∙ t.good_put c k.previous.timeframe_id s g))

    pub write_packet_lem :
        (offset : ℕ) (k : Scan) (s : S)
        → Good s
        → 1 ≤ base
        → IsKept k.previous none
        → (let a = item offset in
            Passed k s
              (if is_empty_hb_start mask a.rdh then [] else a ∷ [])
              (if is_empty_hb_start mask a.rdh then some a else none)
              0
              (write_packet sink mask rdh_at base block_size tf offset k s))
    write_packet_lem offset k s g b q =
        let a = item offset in
        elim (Bool-cases (is_empty_hb_start mask a.rdh)) [
          | inl e ↦ rw (e) record {
            returns = refl;
            written_all = refl;
            keeps = (refl, e, omega arith, refl, refl);
            recorded = omega arith;
            dropped = omega arith;
            no_invalid = refl;
          }
          | inr e ↦
              rw (e, t.good_put a.chunk tf s g)
                record {
                  returns = refl;
                  written_all = refl;
                  keeps = q;
                  recorded = omega arith;
                  dropped = omega arith;
                  no_invalid = refl;
                }
        ]

    -- The loop ends, and does that to the scan and to the files.
    abbrev pub Gives : Scan → S → List Item × Option Item × ℕ → Option (Bool × Scan × S) → Type 0
    Gives k s (w, p, m) o = (r : Bool × Scan × S) × (o ≡ some r) × Passed k s w p m r

    pub drop_two :
        (k : Scan) (s : S) (x : List Item × Option Item × ℕ) (o : Option (Bool × Scan × S))
        → Gives (dropped_two k) s x o
        → Gives k s (x.0, x.1, x.2 + 2) o
    drop_two k s x o (r, e, h) = (
      r,
      e,
      record {
        returns = h.returns;
        written_all = h.written_all;
        keeps = h.keeps;
        recorded = h.recorded;
        dropped = omega (arith, h.dropped);
        no_invalid = h.no_invalid;
      },
    )

    same_test :
        (q : Packet) (kept : Option Item)
        → IsKept q kept
        → is_kept_start mask kept ≡ q.is_empty_hb_start
    same_test q none h = sym h.0
    same_test q (some b) h = h.1 ∙ sym h.0

    pub scan-dropped :
        (q : Packet) (kept : Option Item) (a : Item) (l : List Item)
        → IsKept q kept
        → (q.is_empty_hb_start && is_empty_hb_stop mask a.rdh) ≡ true
        → (let (w, p, n) = scan mask none l in scan mask kept (a ∷ l) ≡ (w, p, n + 2))
    scan-dropped q kept a l h e = rw (same_test q kept h, e) refl

    -- The packet is kept aside or written, after the one that was kept aside.
    pub scan-taken :
        (q : Packet) (kept : Option Item) (a : Item) (l : List Item)
        → IsKept q kept
        → (q.is_empty_hb_start && is_empty_hb_stop mask a.rdh) ≡ false
        → (let start = is_empty_hb_start mask a.rdh in
            let (w, p, n) = scan mask (if start then some a else none) l in
            scan mask kept (a ∷ l)
            ≡ (to_list kept ++ ((if start then [] else a ∷ []) ++ w), p, 0 + (0 + n)))
    scan-taken q kept a l h e = elim (Bool-cases (is_empty_hb_start mask a.rdh)) [
      | inl g ↦ rw (same_test q kept h, e, g) ground arith
      | inr g ↦ rw (same_test q kept h, e, g) ground arith
    ]
