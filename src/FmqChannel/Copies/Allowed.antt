-- ===== src/FmqChannel/Copies/Allowed.antt =====
-- src/ConsumerFMQchannel.cxx, DDformatMessage: the allocation of a copy succeeds with a pool that has
-- pages, for a copy that fits a page with its own DataBlock.
use mathlib.Core.Option.{none-ne-some, some-injective}
use readout.FmqChannel.Copies.Room.{NewPage-intro, write_page-same}
use readout.Prelude.{
  Bool, List, Option, Option-cases, Option-intro, arith, false, if-intro, inl, inr, length, ltb,
  ltb→lt, none, refl, some, subst, suc, sym, true, ℕ, ◌+◌, ◌-◌, ◌∙◌, ◌≡◌, ◌≤◌,
}
use readout.FmqChannel.{NewPage, PagePool, data_block_size, page_new, page_null, page_throws}
use readout.FmqChannel.Copies.{
  Copies, CopyPlace, add_copy_page, alloc_copy, alloc_packed, alloc_page, get_child_block,
}

-- A pool that is never empty.
abbrev pub IsGenerous : PagePool → Type 0
IsGenerous G = (q : G.State) → (bytes : List ℕ) × ((G.get_page q).0 ≡ page_new bytes)

abbrev pub IsSome {ℓ} : {A : Type ℓ} → Option A → Type 0
IsSome none = ⊥
IsSome (some a) = Unit

abbrev pub IsNew : NewPage → Type 0
IsNew page_throws = ⊥
IsNew page_null = ⊥
IsNew (page_new bytes) = Unit

module _ (G : PagePool) (block_bytes : ℕ → List ℕ) (generous : IsGenerous G) where
  got : (q : G.State) → IsNew (G.get_page q).0
  got q = let (bytes, e) = generous q in subst IsNew (sym e) tt

  abbrev Got : Option CopyPlace × Copies G → Type 0
  Got r = IsSome r.0

  -- A fresh page has room.
  child_of_fresh :
      (k total : ℕ) (is_new : Bool) (c : Copies G)
      → c.buffer_used ≡ 0
      → total + data_block_size ≤ length (c.store k)
      → IsSome (get_child_block G block_bytes k total is_new c)
  unfolding get_child_block
  child_of_fresh k total is_new c e h =
      if-intro IsSome (ltb (length (c.store k) - c.buffer_used) (total + data_block_size))
        (λ f. absurd (omega (arith, ltb→lt _ _ f, e, h))) (λ f. tt)

  alloc_packed-fresh :
      (rounds k total : ℕ) (is_new : Bool) (c : Copies G)
      → c.buffer ≡ some k
      → c.buffer_used ≡ 0
      → total + data_block_size ≤ length (c.store k)
      → Got (alloc_packed G block_bytes (suc rounds) total is_new c)
  unfolding alloc_packed
  alloc_packed-fresh rounds k total is_new c e u h =
      Option-intro Got c.buffer (λ f. absurd (none-ne-some k (sym f ∙ e)))
        (λ j f.
          let p : k ≡ j = some-injective k j (sym e ∙ f) in
          let z : IsSome (get_child_block G block_bytes j total is_new c) =
            child_of_fresh j total is_new c u
              (subst (λ n. total + data_block_size ≤ length (c.store n)) p h) in
          Option-intro Got (get_child_block G block_bytes j total is_new c)
            (λ g. absurd (subst IsSome g z)) (λ r g. tt))

  alloc_packed-none :
      (rounds total : ℕ) (is_new : Bool) (c : Copies G)
      → c.buffer ≡ none
      → total + data_block_size ≤ G.page_size
      → Got (alloc_packed G block_bytes (suc (suc rounds)) total is_new c)
  unfolding alloc_packed add_copy_page
  alloc_packed-none rounds total is_new c e h =
      Option-intro Got c.buffer
        (λ f.
          let q = (G.get_page c.pool).1 in
          NewPage-intro Got (G.get_page c.pool).0 (λ g. absurd (subst IsNew g (got c.pool)))
            (λ g. absurd (subst IsNew g (got c.pool)))
            (λ bytes g.
              alloc_packed-fresh rounds c.n_pages total true
                (record (add_copy_page G bytes q c) { buffer = some c.n_pages; buffer_used = 0 })
                refl refl
                (rw (write_page-same c.store c.n_pages bytes)
                  (omega (arith, h, G.length-get_page c.pool bytes g)))))
        (λ j f. absurd (none-ne-some j (sym e ∙ f)))

  alloc_packed-IsSome :
      (total : ℕ) (is_new : Bool) (c : Copies G)
      → total + data_block_size ≤ G.page_size
      → Got (alloc_packed G block_bytes 3 total is_new c)
  unfolding alloc_packed
  alloc_packed-IsSome total is_new c h = elim (Option-cases c.buffer) [
    | inl e ↦ alloc_packed-none 1 total is_new c e h
    | inr (j, e) ↦
        Option-intro Got c.buffer (λ f. absurd (none-ne-some j (sym f ∙ e)))
          (λ k f.
            Option-intro Got (get_child_block G block_bytes k total is_new c)
              (λ g. alloc_packed-none 0 total is_new (record c { buffer = none }) refl h)
              (λ r g. tt))
  ]

  pub alloc_copy-IsSome :
      (enable_packed_copy : Bool) (total : ℕ) (c : Copies G)
      → total + data_block_size ≤ G.page_size
      → IsSome (alloc_copy G block_bytes enable_packed_copy total c).0
  unfolding alloc_page
  alloc_copy-IsSome true total c h = alloc_packed-IsSome total false c h
  alloc_copy-IsSome false total c h =
      NewPage-intro Got (G.get_page c.pool).0 (λ g. absurd (subst IsNew g (got c.pool)))
        (λ g. absurd (subst IsNew g (got c.pool))) (λ bytes g. tt)
