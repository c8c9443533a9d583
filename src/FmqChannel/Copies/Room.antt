-- ===== src/FmqChannel/Copies/Room.antt =====
-- src/ConsumerFMQchannel.cxx, DDformatMessage: a place that is allocated for a copy has the room for
-- it, and nothing that was sent before stands there.
use mathlib.Core.Option.{none-ne-some, some-injective}
use readout.Prelude.{
  ==_iff, Bool, List, Option, Option-intro, ap, arith, false, if-intro, inl, inr, length, ltb, none,
  refl, some, subst, suc, sym, true, zero, ℕ, ◌+◌, ◌-◌, ◌<◌, ◌==◌, ◌∙◌, ◌≡◌, ◌≢◌, ◌≤◌, ◌⊎◌,
}
use readout.FmqChannel.{NewPage, PagePool, data_block_size, page_new, page_null, page_throws}
use readout.FmqChannel.Bytes.{length-overwrite, overwrite, slice, slice-overwrite_before}
use readout.FmqChannel.Copies.{
  Copies, CopyPlace, add_copy_page, alloc_copy, alloc_packed, alloc_page, get_child_block,
  write_page,
}

pub NewPage-intro {ℓ} :
    {B : Type 0} (P : B → Type ℓ) (n : NewPage) {x y : B} {z : List ℕ → B}
    → (n ≡ page_throws → P x)
    → (n ≡ page_null → P y)
    → ((bytes : List ℕ) → n ≡ page_new bytes → P (z bytes))
    → P (elim n [ page_throws ↦ x | page_null ↦ y | page_new bytes ↦ z bytes ])
NewPage-intro P page_throws h k l = h refl
NewPage-intro P page_null h k l = k refl
NewPage-intro P (page_new bytes) h k l = l bytes refl

pub write_page-same :
    (store : ℕ → List ℕ) (page : ℕ) (bytes : List ℕ) → write_page store page bytes page ≡ bytes
write_page-same store page bytes = ground arith

pub write_page-other :
    (store : ℕ → List ℕ) (page : ℕ) (bytes : List ℕ) (k : ℕ)
    → k ≢ page
    → write_page store page bytes k ≡ store k
write_page-other store page bytes k h = ground arith

-- A write to a page leaves what stands before it there, and the other pages.
pub slice-write_page :
    (store : ℕ → List ℕ) (k i : ℕ) (bytes : List ℕ) (page start len : ℕ)
    → (page ≡ k → start + len ≤ i)
    → slice start len (write_page store k (overwrite (store k) i bytes) page)
      ≡ slice start len (store page)
slice-write_page store k i bytes page start len h =
    if-intro (λ (l : List ℕ). slice start len l ≡ slice start len (store page)) (page == k)
      (λ e.
        let p = (==_iff page k).0 e in
        slice-overwrite_before (store k) i bytes start len (h p)
        ∙ ap (λ j. slice start len (store j)) (sym p))
      (λ e. refl)

child_fits :
    (n used total : ℕ)
    → ltb (n - used) (total + data_block_size) ≡ false
    → used + data_block_size + total ≤ n
child_fits n used total h = ground arith

-- A part of a page of the pool: the page, where it starts, and how long it is.
pub record Part : Type 0 where
  pub page : ℕ
  pub start : ℕ
  pub len : ℕ

-- A part whose page was taken, and that the next child block will not overlap.
pub record IsPlaced (n_pages : ℕ) (buffer : Option ℕ) (used : ℕ) (m : Part) : Type 0 where
  pub is_page : m.page < n_pages
  pub is_used : buffer ≡ some m.page → m.start + m.len ≤ used

abbrev pub part_bytes : (ℕ → List ℕ) → Part → List ℕ
part_bytes store m = slice m.start m.len (store m.page)

abbrev pub HasBuffer : ℕ → Option ℕ → Type 0
HasBuffer n_pages buffer = (k : ℕ) → buffer ≡ some k → k < n_pages

module _ {G : PagePool} where
  -- What is in place stays so, with the same bytes.
  abbrev pub Moved : Copies G → Copies G → Type 0
  Moved c d =
      (m : Part)
      → IsPlaced c.n_pages c.buffer c.buffer_used m
      → IsPlaced d.n_pages d.buffer d.buffer_used m × (part_bytes d.store m ≡ part_bytes c.store m)

  pub record Room (total : ℕ) (c d : Copies G) (p : CopyPlace) : Type 0 where
    pub page_lt : p.page < d.n_pages
    pub fits : p.base + total ≤ length (d.store p.page)
    pub in_use : d.buffer ≡ some p.page → p.base + total ≤ d.buffer_used
    pub has_buffer : HasBuffer d.n_pages d.buffer
    pub moved : Moved c d
    pub is_free :
        (m : Part)
        → IsPlaced c.n_pages c.buffer c.buffer_used m
        → m.page ≡ p.page
        → m.start + m.len ≤ p.base

  abbrev pub HasRoom : ℕ → Copies G → Option CopyPlace × Copies G → Type 0
  HasRoom total c (none, d) = Unit
  HasRoom total c (some p, d) = Room total c d p

  HasRoom-Moved :
      (total : ℕ) (c d : Copies G) (r : Option CopyPlace × Copies G)
      → Moved c d
      → HasRoom total d r
      → HasRoom total c r
  HasRoom-Moved total c d (none, e) v h = tt
  HasRoom-Moved total c d (some p, e) v h = record {
    page_lt = h.page_lt;
    fits = h.fits;
    in_use = h.in_use;
    has_buffer = h.has_buffer;
    moved = λ m w. let (x, f) = v m w in let (y, g) = h.moved m x in (y, g ∙ f);
    is_free = λ m w e. h.is_free m (v m w).0 e;
  }

  pub HasRoom-some :
      (total : ℕ) (c : Copies G) (r : Option CopyPlace × Copies G) (p : CopyPlace)
      → r.0 ≡ some p
      → HasRoom total c r
      → Room total c r.1 p
  HasRoom-some total c (none, d) p e h = absurd (none-ne-some p e)
  HasRoom-some total c (some q, d) p e h = subst (Room total c d) (some-injective q p e) h

  -- A page that is added has the next number.
  Moved-add_copy_page :
      (bytes : List ℕ) (q : G.State) (c : Copies G) (buffer : Option ℕ) (used : ℕ)
      → ((k : ℕ) → buffer ≡ some k → (c.buffer ≡ some k × used ≡ c.buffer_used) ⊎ (k ≡ c.n_pages))
      → Moved c (record (add_copy_page G bytes q c) { buffer = buffer; buffer_used = used })
  unfolding add_copy_page
  Moved-add_copy_page bytes q c buffer used h m w = (
    record {
      is_page = omega (arith, w.is_page);
      is_used = λ e. elim (h m.page e) [
        | inl (b, u) ↦ rw (u) (w.is_used b)
        | inr f ↦ absurd (omega (arith, w.is_page, f))
      ];
    },
    ap (slice m.start m.len)
        (write_page-other c.store c.n_pages bytes m.page (omega (arith, w.is_page))),
  )

  HasChild : ℕ → Copies G → Option (CopyPlace × Copies G) → Type 0
  HasChild total c none = Unit
  HasChild total c (some (p, d)) = Room total c d p

  module _ (block_bytes : ℕ → List ℕ) where
    get_child_block-HasChild :
        (k total : ℕ) (is_new : Bool) (c : Copies G)
        → c.buffer ≡ some k
        → HasBuffer c.n_pages c.buffer
        → HasChild total c (get_child_block G block_bytes k total is_new c)
    unfolding get_child_block HasChild
    get_child_block-HasChild k total is_new c e hb =
        let size = total + data_block_size in
        let before = overwrite (c.store k) c.buffer_used (block_bytes total) in
        let store = write_page c.store k before in
        let same : store k ≡ before = write_page-same c.store k before in
        if-intro (HasChild total c) (ltb (length (c.store k) - c.buffer_used) size) (λ f. tt)
          (λ f. record {
            page_lt = hb k e;
            fits =
                rw (same, length-overwrite (c.store k) c.buffer_used (block_bytes total))
                  (child_fits _ _ total f);
            in_use = λ g. omega arith;
            has_buffer = hb;
            moved = λ m w. (
              record { is_page = w.is_page; is_used = λ g. omega (arith, w.is_used g) },
              slice-write_page c.store k c.buffer_used (block_bytes total) m.page m.start m.len
                  (λ g. w.is_used (e ∙ ap some (sym g))),
            );
            is_free = λ m w g. omega (arith, w.is_used (e ∙ ap some (sym g)));
          })

    alloc_packed-HasRoom :
        (rounds total : ℕ) (is_new : Bool) (c : Copies G)
        → HasBuffer c.n_pages c.buffer
        → HasRoom total c (alloc_packed G block_bytes rounds total is_new c)
    unfolding alloc_packed add_copy_page HasChild
    alloc_packed-HasRoom zero total is_new c hb = tt
    alloc_packed-HasRoom (suc rounds) total is_new c hb =
        let q = (G.get_page c.pool).1 in
        Option-intro (HasRoom total c) c.buffer
          (λ e.
            NewPage-intro (HasRoom total c) (G.get_page c.pool).0 (λ f. tt)
              (λ f.
                let d = record c { pages_used = suc c.pages_used; pool = q } in
                HasRoom-Moved total c d (alloc_packed G block_bytes rounds total true d)
                  (λ m w. (w, refl)) (alloc_packed-HasRoom rounds total true d hb))
              (λ bytes f.
                let d = record (add_copy_page G bytes q c) {
                  buffer = some c.n_pages;
                  buffer_used = 0;
                } in
                HasRoom-Moved total c d (alloc_packed G block_bytes rounds total true d)
                  (Moved-add_copy_page bytes q c (some c.n_pages) 0
                    (λ k g. inr (sym (some-injective c.n_pages k g))))
                  (alloc_packed-HasRoom rounds total true d
                    (λ k g. omega (arith, some-injective c.n_pages k g)))))
          (λ k e.
            Option-intro (HasRoom total c) (get_child_block G block_bytes k total is_new c)
              (λ f.
                let d = record c { buffer = none } in
                HasRoom-Moved total c d (alloc_packed G block_bytes rounds total is_new d)
                  (λ m w. (
                    record { is_page = w.is_page; is_used = λ g. absurd (none-ne-some m.page g) },
                    refl,
                  ))
                  (alloc_packed-HasRoom rounds total is_new d (λ j g. absurd (none-ne-some j g))))
              (λ r f. subst (HasChild total c) f (get_child_block-HasChild k total is_new c e hb)))

    -- A page for a single copy has the size of the pages of the pool.
    alloc_page-HasRoom :
        (total : ℕ) (c : Copies G)
        → total ≤ G.page_size
        → HasBuffer c.n_pages c.buffer
        → HasRoom total c (alloc_page G c)
    unfolding alloc_page add_copy_page
    alloc_page-HasRoom total c h hb =
        let q = (G.get_page c.pool).1 in
        NewPage-intro (HasRoom total c) (G.get_page c.pool).0 (λ f. tt) (λ f. tt)
          (λ bytes f. record {
            page_lt = omega arith;
            fits =
                rw (write_page-same c.store c.n_pages bytes)
                  (omega (arith, G.length-get_page c.pool bytes f));
            in_use = λ g. absurd (omega (arith, hb c.n_pages g));
            has_buffer = λ k g. omega (arith, hb k g);
            moved = Moved-add_copy_page bytes q c c.buffer c.buffer_used (λ k g. inl (g, refl));
            is_free = λ m w g. absurd (omega (arith, w.is_page, g));
          })

    pub alloc_copy-HasRoom :
        (enable_packed_copy : Bool) (total : ℕ) (c : Copies G)
        → total ≤ G.page_size
        → HasBuffer c.n_pages c.buffer
        → HasRoom total c (alloc_copy G block_bytes enable_packed_copy total c)
    alloc_copy-HasRoom true total c h hb = alloc_packed-HasRoom 3 total false c hb
    alloc_copy-HasRoom false total c h hb = alloc_page-HasRoom total c h hb
