-- ===== src/Memory/Pool/Kept.antt =====
-- What the operations of a pool leave as it was.
use readout.Prelude.{
  Bool-cases, List, Option, [], arith, get_or, inl, inr, length, length-set, none, refl, set, some,
  suc, zero, ℕ, ◌∙◌, ◌∷◌, ◌≡◌,
}
use readout.Fifo.{Fifo}
use readout.Memory.Page.Times.{page_ptr-set_page_state}
use readout.Memory.Page.{MemoryPage, PageState, Readings}
use readout.Memory.Pool.{
  Pool, blank_page, is_page_valid, set_state_at, update_buffer_state, update_page_state,
}
use readout.Memory.Pool.Index.{IsLaidOut}

page_ptr-set :
    (ps : List MemoryPage) (i j : ℕ) (m : MemoryPage)
    → m.page_ptr ≡ (get_or ps i blank_page).page_ptr
    → (get_or (set ps i m) j blank_page).page_ptr ≡ (get_or ps j blank_page).page_ptr
page_ptr-set [] i j m h = refl
page_ptr-set (p ∷ ps) zero zero m h = h
page_ptr-set (p ∷ ps) zero (suc j) m h = refl
page_ptr-set (p ∷ ps) (suc i) zero m h = refl
page_ptr-set (p ∷ ps) (suc i) (suc j) m h = page_ptr-set ps i j m h

module _ {F : Fifo ℕ} where
  -- Two pools that differ in the states and headers of their pages at most, and in what the
  -- statistics and the buffer state report.
  pub record Keeps (p q : Pool F) : Type 0 where
    pub number_kept : q.number_of_pages ≡ p.number_of_pages
    pub size_kept : q.page_size ≡ p.page_size
    pub first_kept : q.first_page_address ≡ p.first_page_address
    pub last_kept : q.last_page_address ≡ p.last_page_address
    pub length_kept : length q.pages ≡ length p.pages
    pub ptrs_kept :
        (i : ℕ) → (get_or q.pages i blank_page).page_ptr ≡ (get_or p.pages i blank_page).page_ptr

  pub Keeps-trans : {p q r : Pool F} → Keeps p q → Keeps q r → Keeps p r
  Keeps-trans k l = record {
    number_kept = l.number_kept ∙ k.number_kept;
    size_kept = l.size_kept ∙ k.size_kept;
    first_kept = l.first_kept ∙ k.first_kept;
    last_kept = l.last_kept ∙ k.last_kept;
    length_kept = l.length_kept ∙ k.length_kept;
    ptrs_kept = λ i. l.ptrs_kept i ∙ k.ptrs_kept i;
  }

  pub Keeps-IsLaidOut : {p q : Pool F} → Keeps p q → IsLaidOut p → IsLaidOut q
  Keeps-IsLaidOut {p} {q} k w = record {
    page_size_pos = omega (arith, k.size_kept, w.page_size_pos);
    first_pos = omega (arith, k.first_kept, w.first_pos);
    some_page = omega (arith, k.number_kept, w.some_page);
    int_range = omega (arith, k.number_kept, w.int_range);
    last_is = rw (k.last_kept, k.size_kept, k.first_kept, k.number_kept) w.last_is;
    in_range = rw (k.size_kept, k.first_kept, k.number_kept) w.in_range;
    length_pages = omega (arith, k.length_kept, k.number_kept, w.length_pages);
    ptrs =
        λ i h. rw (k.first_kept, k.size_kept) (k.ptrs_kept i ∙ w.ptrs i (rw (k.number_kept) at h));
  }

  pub is_page_valid-Keeps :
      {p q : Pool F} (a : ℕ) → Keeps p q → is_page_valid F q a ≡ is_page_valid F p a
  unfolding is_page_valid
  is_page_valid-Keeps a k = rw (k.first_kept, k.last_kept, k.size_kept)

  pub update_buffer_state-Keeps :
      (p : Pool F)
      → Keeps p (update_buffer_state F p)
        × ((update_buffer_state F p).pages_available ≡ p.pages_available)
  unfolding update_buffer_state
  update_buffer_state-Keeps p = elim (Bool-cases p.has_log_callback) [
    | inl e ↦
        rw (e, update_buffer_state)
          (
            record {
              number_kept = refl;
              size_kept = refl;
              first_kept = refl;
              last_kept = refl;
              length_kept = refl;
              ptrs_kept = λ i. refl;
            },
            refl,
          )
    | inr e ↦
        rw (e, update_buffer_state)
          (
            record {
              number_kept = refl;
              size_kept = refl;
              first_kept = refl;
              last_kept = refl;
              length_kept = refl;
              ptrs_kept = λ i. refl;
            },
            refl,
          )
  ]

  set_state_at-Keeps :
      (now : Readings) (s : PageState) (p : Pool F) (o : Option ℕ)
      → Keeps p (set_state_at F now s p o).1
        × ((set_state_at F now s p o).1.pages_available ≡ p.pages_available)
  unfolding set_state_at
  set_state_at-Keeps now s p none = (
    record {
      number_kept = refl;
      size_kept = refl;
      first_kept = refl;
      last_kept = refl;
      length_kept = refl;
      ptrs_kept = λ i. refl;
    },
    refl,
  )
  set_state_at-Keeps now s p (some ix) = (
    record {
      number_kept = refl;
      size_kept = refl;
      first_kept = refl;
      last_kept = refl;
      length_kept = length-set p.pages ix _;
      ptrs_kept = λ i. page_ptr-set p.pages ix i _ (page_ptr-set_page_state now s _);
    },
    refl,
  )

  pub update_page_state-Keeps :
      (now : Readings) (a : ℕ) (s : PageState) (p : Pool F)
      → Keeps p (update_page_state F now a s p).1
        × ((update_page_state F now a s p).1.pages_available ≡ p.pages_available)
  unfolding update_page_state
  update_page_state-Keeps now a s p = set_state_at-Keeps now s p _
