-- ===== src/FmqChannel/Copies.antt =====
-- src/ConsumerFMQchannel.cxx, DDformatMessage: the memory in which the HBFs that span several pages
-- are repacked, with `getChildBlock` of src/DataBlockContainer.h.
pub mod Room
pub mod Allowed
use readout.Prelude.{
  Bool, List, Option, false, if◌then◌else◌, length, ltb, none, some, suc, true, zero, ℕ, ◌+◌, ◌-◌,
  ◌==◌,
}
use readout.FmqChannel.{PagePool, data_block_size, page_new, page_null, page_throws}
use readout.FmqChannel.Bytes.{overwrite}

-- The pages that were taken from the pool, numbered as they came, with what they contain. `buffer` is
-- `copyBlockBuffer`, and `buffer_used` its `dataBufferUsed`. `pages_used` is `nPagesUsedForRepack`.
pub record Copies (G : PagePool) : Type 0 where
  pub store : ℕ → List ℕ
  pub n_pages : ℕ
  pub buffer : Option ℕ
  pub buffer_used : ℕ
  pub pages_used : ℕ
  pub pool : G.State

-- Where a copy goes: a page and the offset in it. `is_new_block` is the local of that name.
pub record CopyPlace : Type 0 where
  pub page : ℕ
  pub base : ℕ
  pub is_new_block : Bool

abbrev pub write_page : (ℕ → List ℕ) → ℕ → List ℕ → ℕ → List ℕ
write_page store page bytes k = if k == page then bytes else store k

module _ (G : PagePool) where
  unfoldable pub add_copy_page : List ℕ → G.State → Copies G → Copies G
  add_copy_page bytes q c = record c {
    store = write_page c.store c.n_pages bytes;
    n_pages = suc c.n_pages;
    pages_used = suc c.pages_used;
    pool = q;
  }

  unfoldable pub alloc_page : Copies G → Option CopyPlace × Copies G
  alloc_page c =
      let q = (G.get_page c.pool).1 in
      elim (G.get_page c.pool).0 [
        | page_throws ↦ (none, record c { pool = q })
        | page_null ↦ (none, record c { pages_used = suc c.pages_used; pool = q })
        | page_new bytes ↦ (
          some (record { page = c.n_pages; base = 0; is_new_block = true }),
          add_copy_page bytes q c,
        )
      ]

-- `block_bytes` is what a child block's own DataBlock looks like in memory.
module _ (G : PagePool) (block_bytes : ℕ → List ℕ) where
  -- `getChildBlock`: the room that is left, less the child's own DataBlock, or a null pointer.
  unfoldable pub get_child_block : ℕ → ℕ → Bool → Copies G → Option (CopyPlace × Copies G)
  get_child_block k total is_new c =
      let buffer_size = total + data_block_size in
      if ltb (length (c.store k) - c.buffer_used) buffer_size
      then none
      else some (
        record { page = k; base = c.buffer_used + data_block_size; is_new_block = is_new },
        record c {
          store = write_page c.store k (overwrite (c.store k) c.buffer_used (block_bytes total));
          buffer_used = c.buffer_used + buffer_size;
        },
      )

  -- The loop of the packed copy, with the rounds that are left.
  unfoldable pub alloc_packed : ℕ → ℕ → Bool → Copies G → Option CopyPlace × Copies G
  alloc_packed zero total is_new c = (none, c)
  alloc_packed (suc rounds) total is_new c = elim c.buffer [
    | none ↦
        let q = (G.get_page c.pool).1 in
        elim (G.get_page c.pool).0 [
          | page_throws ↦ (none, record c { pool = q })
          | page_null ↦
              alloc_packed rounds total true (record c { pages_used = suc c.pages_used; pool = q })
          | page_new bytes ↦
              alloc_packed rounds total true
                (record (add_copy_page G bytes q c) { buffer = some c.n_pages; buffer_used = 0 })
        ]
    | some k ↦ elim (get_child_block k total is_new c) [
      | none ↦ alloc_packed rounds total is_new (record c { buffer = none })
      | some r ↦ (some r.0, r.1)
    ]
  ]

  -- `for (int i = 0; i<=2; i++)` makes three rounds.
  abbrev pub alloc_copy : Bool → ℕ → Copies G → Option CopyPlace × Copies G
  alloc_copy enable_packed_copy total c =
      if enable_packed_copy then alloc_packed 3 total false c else alloc_page G c
