-- ===== src/FmqChannel/Frames/Sent.antt =====
-- src/ConsumerFMQchannel.cxx, pendingFramesCollect: what was sent and what is pending, as bytes.
use readout.FmqChannel.{Page, PagePool, SubTimeframe, data_block_size}
use readout.FmqChannel.Copies.Allowed.{IsGenerous, IsSome, alloc_copy-IsSome}
use readout.Counter.{set_value}
use readout.Prelude.{
  All, All-append, All-append_right, Bool, List, Option, Option-intro, [], ap, append-nil, arith,
  false, if-intro, length, length-append, ltb, ltb→lt, map, map-append, refl, subst, suc, sym, ℕ,
  ◌++◌, ◌+◌, ◌∙◌, ◌∷◌, ◌≡◌, ◌≤◌,
}
use readout.FmqChannel.Bytes.{concat, concat-append, overwrite, slice, slice-overwrite}
use readout.FmqChannel.Copies.{Copies, CopyPlace, alloc_copy, write_page}
use readout.FmqChannel.Copies.Room.{
  HasBuffer, HasRoom-some, IsPlaced, Part, Room, alloc_copy-HasRoom, slice-write_page,
  write_page-same,
}
use readout.FmqChannel.Frames.{
  Message, Outcome, PendingFrame, Sending, copy_frames, copy_message, frame_bytes, page_message,
  pending_frames_append, pending_frames_collect, repack, returned, send_copy, send_frame,
  stf_message, thrown, total_length,
}
use readout.FmqChannel.Frames.Copy.{
  IsWhole, copy_frames_lem, joined, joined-append, length-frame_bytes, length-joined,
}

-- The bytes of a message part; `stf_bytes` is what an STF header looks like in memory.
unfoldable pub body : (SubTimeframe → List ℕ) → (ℕ → List ℕ) → Message → List ℕ
body stf_bytes store (stf_message h) = stf_bytes h
body stf_bytes store (page_message p start len) = slice start len p.payload
body stf_bytes store (copy_message k start len) = slice start len (store k)

-- The parts with one more, unless it is empty.
unfoldable pub close_part : List (List ℕ) → List ℕ → List (List ℕ)
close_part closed [] = closed
close_part closed (x ∷ part) = closed ++ ((x ∷ part) ∷ [])

unfoldable pub InPlace : ℕ → Option ℕ → ℕ → Message → Type 0
InPlace n_pages buffer used (stf_message h) = Unit
InPlace n_pages buffer used (page_message p start len) = Unit
InPlace n_pages buffer used (copy_message k start len) =
    IsPlaced n_pages buffer used (record { page = k; start = start; len = len })

fits_page : (size total : ℕ) → ltb size total ≡ false → total ≤ size
fits_page size total h = ground arith

counted-snoc :
    (closed : List (List ℕ)) (part : List ℕ) (n l : ℕ)
    → n ≡ length (concat closed)
    → l ≡ length part
    → n + l ≡ length (concat (closed ++ (part ∷ [])))
counted-snoc closed part n l e f =
    rw (concat-append closed (part ∷ []), append-nil part)
      (omega (arith, length-append (concat closed) part))

-- No frame, a single one, or several.
pub frames-intro {ℓ κ} :
    {B : Type ℓ} (P : B → Type κ) (l : List PendingFrame) {x z : B} {y : PendingFrame → B}
    → (l ≡ [] → P x)
    → ((f : PendingFrame) → l ≡ f ∷ [] → P (y f))
    → ((f g : PendingFrame) (r : List PendingFrame) → l ≡ f ∷ g ∷ r → P z)
    → P (elim l [ [] ↦ x | f ∷ [] ↦ y f | f ∷ g ∷ r ↦ z ])
frames-intro P [] h k m = h refl
frames-intro P (f ∷ []) h k m = k f refl
frames-intro P (f ∷ g ∷ r) h k m = m f g r refl

close_part-some :
    (closed : List (List ℕ)) (part : List ℕ)
    → 1 ≤ length part
    → close_part closed part ≡ closed ++ (part ∷ [])
unfolding close_part
close_part-some closed [] h = absurd (omega arith)
close_part-some closed (x ∷ part) h = refl

-- Frames that wait have bytes.
joined-some :
    (fs : List PendingFrame) (part : List ℕ) (f : PendingFrame) (r : List PendingFrame)
    → fs ≡ f ∷ r
    → All IsWhole fs
    → joined fs ≡ part
    → 1 ≤ length part
joined-some [] part f r e w h = absurd (ground (arith, e))
joined-some (g ∷ fs) part f r e (w, v) h =
    subst (λ (l : List ℕ). 1 ≤ length l) h
      (omega (arith, length-append (frame_bytes g) (joined fs), length-frame_bytes g w, w.is_some))

-- What is short enough to be copied to a page of the pool.
abbrev pub IsShort : ℕ → List ℕ → Type 0
IsShort page_size l = length l + data_block_size ≤ page_size

abbrev TooLong : PagePool → ℕ → Type 0
TooLong G n = IsGenerous G → n + data_block_size ≤ G.page_size → ⊥

module _ {G : PagePool} (stf_bytes : SubTimeframe → List ℕ) where
  abbrev pub bodies : Sending G → List (List ℕ)
  bodies s = map (body stf_bytes s.copies.store) s.messages

  pub record IsSent (s : Sending G) (closed : List (List ℕ)) (part : List ℕ) : Type 0 where
    pub sent : bodies s ≡ closed
    pub waits : joined s.pending ≡ part
    pub whole : All IsWhole s.pending
    pub in_place : All (InPlace s.copies.n_pages s.copies.buffer s.copies.buffer_used) s.messages
    pub has_buffer : HasBuffer s.copies.n_pages s.copies.buffer
    pub counted : s.fmq_size ≡ length (concat closed)

  -- What holds when the code goes on, and when it throws.
  abbrev pub IfReturned : (Sending G → Type 0) → Type 0 → Outcome (Sending G) → Type 0
  IfReturned P Q (returned s) = P s
  IfReturned P Q (thrown s) = Q

  pub IfReturned-map :
      (P : Sending G → Type 0) (Q R : Type 0)
      → (Q → R)
      → (o : Outcome (Sending G)) → IfReturned P Q o
      → IfReturned P R o
  IfReturned-map P Q R f (returned s) h = h
  IfReturned-map P Q R f (thrown s) h = f h

  -- What was sent is not written over.
  unmoved :
      (c d : Copies G) (p : CopyPlace) (total : ℕ) (bytes : List ℕ) (ms : List Message)
      → Room total c d p
      → All (InPlace c.n_pages c.buffer c.buffer_used) ms
      → All (InPlace d.n_pages d.buffer d.buffer_used) ms
        × (map
              (body stf_bytes (write_page d.store p.page (overwrite (d.store p.page) p.base bytes)))
              ms
            ≡ map (body stf_bytes c.store) ms)
  unfolding body InPlace
  unmoved c d p total bytes [] r h = (tt, refl)
  unmoved c d p total bytes (stf_message x ∷ ms) r (w, h) =
      let (u, e) = unmoved c d p total bytes ms r h in ((tt, u), rw (e) refl)
  unmoved c d p total bytes (page_message x i l ∷ ms) r (w, h) =
      let (u, e) = unmoved c d p total bytes ms r h in ((tt, u), rw (e) refl)
  unmoved c d p total bytes (copy_message k i l ∷ ms) r (w, h) =
      let m : Part = record { page = k; start = i; len = l } in
      let (u, e) = unmoved c d p total bytes ms r h in
      let (v, f) = r.moved m w in
      ((v, u), rw (e, slice-write_page d.store p.page p.base bytes k i l (r.is_free m w), f) refl)

  none_waits :
      (s : Sending G) (closed : List (List ℕ)) (part : List ℕ)
      → s.pending ≡ []
      → IsSent s closed part
      → IsSent s (close_part closed part) []
  unfolding close_part
  none_waits s closed part e w =
      let f : part ≡ [] = sym w.waits ∙ ap joined e in
      subst (λ (l : List ℕ). IsSent s (close_part closed l) []) (sym f)
        (subst (IsSent s closed) f w)

  send_frame-IsSent :
      (s : Sending G) (closed : List (List ℕ)) (part : List ℕ) (f : PendingFrame)
      → s.pending ≡ f ∷ []
      → IsSent s closed part
      → IsSent (send_frame G f s) (closed ++ (part ∷ [])) []
  unfolding send_frame body InPlace
  send_frame-IsSent s closed part f e w =
      let m : Message = page_message f.page f.hb_start f.hb_length in
      let whole : All IsWhole (f ∷ []) = subst (All IsWhole) e w.whole in
      let bytes : frame_bytes f ≡ part =
        sym (append-nil (frame_bytes f)) ∙ ap joined (sym e) ∙ w.waits in
      record {
        sent =
            map-append (body stf_bytes s.copies.store) s.messages (m ∷ [])
            ∙ ap (λ l. l ++ (frame_bytes f ∷ [])) w.sent
            ∙ ap (λ l. closed ++ (l ∷ [])) bytes;
        waits = refl;
        whole = tt;
        in_place = All-append _ s.messages (m ∷ []) w.in_place (tt, tt);
        has_buffer = w.has_buffer;
        counted =
            counted-snoc closed part s.fmq_size f.hb_length w.counted
              (sym (length-frame_bytes f whole.0) ∙ ap length bytes);
      }

  send_copy-IsSent :
      (s : Sending G) (closed : List (List ℕ)) (part : List ℕ) (p : CopyPlace) (d : Copies G)
      → IsSent s closed part
      → Room (total_length s.pending) s.copies d p
      → IsSent (send_copy G p (total_length s.pending) d s) (closed ++ (part ∷ [])) []
  unfolding send_copy body InPlace
  send_copy-IsSent s closed part p d w r =
      let total = total_length s.pending in
      let old = d.store p.page in
      let copied : copy_frames p.base s.pending old ≡ overwrite old p.base part =
        copy_frames_lem p.base s.pending old w.whole ∙ ap (overwrite old p.base) w.waits in
      let len : length part ≡ total = ap length (sym w.waits) ∙ length-joined s.pending w.whole in
      let (u, e) = unmoved s.copies d p total part s.messages r w.in_place in
      let m : Message = copy_message p.page p.base total in
      let store = write_page d.store p.page (overwrite old p.base part) in
      let last : slice p.base total (store p.page) ≡ part =
        ap (slice p.base total) (write_page-same d.store p.page (overwrite old p.base part))
        ∙ subst (λ n. slice p.base n (overwrite old p.base part) ≡ part) len
            (slice-overwrite old p.base part (omega (arith, r.fits, len))) in
      record {
        sent =
            subst
              (λ (bs : List ℕ).
                map (body stf_bytes (write_page d.store p.page bs)) (s.messages ++ (m ∷ []))
                ≡ closed ++ (part ∷ []))
              (sym copied)
              (map-append (body stf_bytes store) s.messages (m ∷ [])
                ∙ ap (λ l. l ++ (slice p.base total (store p.page) ∷ [])) (e ∙ w.sent)
                ∙ ap (λ l. closed ++ (l ∷ [])) last);
        waits = refl;
        whole = tt;
        in_place =
            All-append _ s.messages (m ∷ []) u
              (record { is_page = r.page_lt; is_used = r.in_use }, tt);
        has_buffer = r.has_buffer;
        counted = counted-snoc closed part s.fmq_size total w.counted (sym len);
      }

  pub pending_frames_append-IsSent :
      (start len id : ℕ) (b : Page) (s : Sending G) (closed : List (List ℕ)) (part : List ℕ)
      → 1 ≤ len
      → start + len ≤ length b.payload
      → IsSent s closed part
      → IsSent (pending_frames_append G start len id b s) closed (part ++ slice start len b.payload)
  unfolding pending_frames_append
  pending_frames_append-IsSent start len id b s closed part h k w =
      let f : PendingFrame = record { page = b; hb_start = start; hb_length = len; hb_id = id } in
      record {
        sent = w.sent;
        waits =
            joined-append s.pending (f ∷ [])
            ∙ ap (λ l. l ++ joined (f ∷ [])) w.waits
            ∙ ap (λ l. part ++ l) (append-nil (frame_bytes f));
        whole =
            All-append IsWhole s.pending (f ∷ []) w.whole
              (record { is_some = h; is_inside = k }, tt);
        in_place = w.in_place;
        has_buffer = w.has_buffer;
        counted = w.counted;
      }

  module _ (block_bytes : ℕ → List ℕ) (enable_packed_copy : Bool) where
    repack-IsSent :
        (s : Sending G) (closed : List (List ℕ)) (part : List ℕ)
        → IsSent s closed part
        → IfReturned
            (λ t. IsSent t (closed ++ (part ∷ [])) [])
            (TooLong G (length part))
            (repack G block_bytes enable_packed_copy s)
    unfolding repack send_copy
    repack-IsSent s closed part w =
        let P = IfReturned (λ t. IsSent t (closed ++ (part ∷ [])) []) (TooLong G (length part)) in
        let total = total_length s.pending in
        let r = alloc_copy G block_bytes enable_packed_copy total s.copies in
        let len : length part ≡ total = ap length (sym w.waits) ∙ length-joined s.pending w.whole in
        let counted = record s {
          hbf_repacked = suc s.hbf_repacked;
          repack_size_stats = set_value s.repack_size_stats total;
        } in
        let w' : IsSent counted closed part = record {
          sent = w.sent;
          waits = w.waits;
          whole = w.whole;
          in_place = w.in_place;
          has_buffer = w.has_buffer;
          counted = w.counted;
        } in
        if-intro P (ltb G.page_size total) (λ e gen f. absurd (omega (arith, ltb→lt _ _ e, f, len)))
          (λ e.
            let room =
              alloc_copy-HasRoom block_bytes enable_packed_copy total s.copies
                (fits_page G.page_size total e) w.has_buffer in
            Option-intro P r.0
              (λ f gen z. absurd (
                subst IsSome f (
                  alloc_copy-IsSome G block_bytes gen enable_packed_copy total s.copies
                    (omega (arith, z, len)))))
              (λ p f.
                send_copy-IsSent counted closed part p r.1 w'
                  (HasRoom-some total s.copies r p f room)))

    pub pending_frames_collect-IsSent :
        (s : Sending G) (closed : List (List ℕ)) (part : List ℕ)
        → IsSent s closed part
        → IfReturned
            (λ t. IsSent t (close_part closed part) [])
            (IsGenerous G → All (IsShort G.page_size) (close_part closed part) → ⊥)
            (pending_frames_collect G block_bytes enable_packed_copy s)
    unfolding pending_frames_collect
    pending_frames_collect-IsSent s closed part w =
        let Q = IsGenerous G → All (IsShort G.page_size) (close_part closed part) → ⊥ in
        let P = IfReturned (λ t. IsSent t (close_part closed part) []) Q in
        let some_part : (f : PendingFrame) (r : List PendingFrame)
            → s.pending ≡ f ∷ r
            → close_part closed part ≡ closed ++ (part ∷ []) =
          λ f r e. close_part-some closed part (joined-some s.pending part f r e w.whole w.waits) in
        frames-intro P s.pending (λ e. none_waits s closed part e w)
          (λ f e. rw (some_part f [] e) (send_frame-IsSent s closed part f e w))
          (λ f g r e. rw (some_part f (g ∷ r) e) (
            IfReturned-map (λ x. IsSent x (closed ++ (part ∷ [])) []) (TooLong G (length part))
              (IsGenerous G → All (IsShort G.page_size) (closed ++ (part ∷ [])) → ⊥)
              (λ z gen a. z gen (All-append_right (IsShort G.page_size) closed (part ∷ []) a).0)
              (repack G block_bytes enable_packed_copy s) (repack-IsSent s closed part w)))
