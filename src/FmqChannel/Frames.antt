-- ===== src/FmqChannel/Frames.antt =====
-- src/ConsumerFMQchannel.cxx, DDformatMessage: the frames that are pending, pendingFramesAppend and
-- pendingFramesCollect. The statistics of the blocks that FMQ holds are left out.
pub mod Copy
pub mod Sent
pub mod Owned
use readout.Prelude.{
  Bool, List, [], if◌then◌else◌, length, ltb, none, some, suc, ℕ, ◌++◌, ◌+◌, ◌-◌, ◌∷◌,
}
use readout.Counter.{CounterStats, set_value}
use readout.FmqChannel.{Page, PagePool, SubTimeframe}
use readout.FmqChannel.Bytes.{overwrite, slice}
use readout.FmqChannel.Copies.{Copies, CopyPlace, alloc_copy, write_page}

-- `pendingFrame`: a part of a page. The reference to the block is the page itself here.
pub record PendingFrame : Type 0 where
  pub page : Page
  pub hb_start : ℕ
  pub hb_length : ℕ
  pub hb_id : ℕ

-- A message part, as the address it is made of: the STF header, a part of a page that came in, or a
-- part of a page of the pool.
pub data Message : Type 0 where
  stf_message : SubTimeframe → Message
  page_message : Page → ℕ → ℕ → Message
  copy_message : ℕ → ℕ → ℕ → Message

-- `references` counts the objects `new DataBlockContainerReference` that were not deleted: each keeps
-- a page from going back to its pool.
pub record Sending (G : PagePool) : Type 0 where
  pub messages : List Message
  pub pending : List PendingFrame
  pub copies : Copies G
  pub references : ℕ
  pub fmq_size : ℕ
  pub memory_size : ℕ
  pub hbf_repacked : ℕ
  pub bytes_copied : ℕ
  pub repack_size_stats : CounterStats

-- How a part of the code ends: it goes on, or throws.
pub data Outcome (A : Type 0) : Type 0 where
  returned : A → Outcome A
  thrown : A → Outcome A

abbrev pub frame_bytes : PendingFrame → List ℕ
frame_bytes f = slice f.hb_start f.hb_length f.page.payload

unfoldable pub total_length : List PendingFrame → ℕ
total_length [] = 0
total_length (f ∷ fs) = f.hb_length + total_length fs

-- The copies of the frames to a block, one after the other from `ix`.
unfoldable pub copy_frames : ℕ → List PendingFrame → List ℕ → List ℕ
copy_frames ix [] bytes = bytes
copy_frames ix (f ∷ fs) bytes =
    copy_frames (ix + f.hb_length) fs (overwrite bytes ix (frame_bytes f))

module _ (G : PagePool) where
  unfoldable pub pending_frames_append : ℕ → ℕ → ℕ → Page → Sending G → Sending G
  pending_frames_append ix l id br s = record s {
    pending = s.pending ++ (record { page = br; hb_start = ix; hb_length = l; hb_id = id } ∷ []);
    references = suc s.references;
  }

  -- A single frame is sent where it is.
  unfoldable pub send_frame : PendingFrame → Sending G → Sending G
  send_frame f s = record s {
    messages = s.messages ++ (page_message f.page f.hb_start f.hb_length ∷ []);
    pending = [];
    fmq_size = s.fmq_size + f.hb_length;
  }

  -- Several are copied to the place that was allocated.
  unfoldable pub send_copy : CopyPlace → ℕ → Copies G → Sending G → Sending G
  send_copy place total c s = record s {
    messages = s.messages ++ (copy_message place.page place.base total ∷ []);
    pending = [];
    copies = record c {
      store = write_page c.store place.page (copy_frames place.base s.pending (c.store place.page));
    };
    references = suc s.references - length s.pending;
    fmq_size = s.fmq_size + total;
    memory_size = if place.is_new_block then s.memory_size + G.page_size else s.memory_size;
    bytes_copied = s.bytes_copied + total;
  }

module _ (G : PagePool) (block_bytes : ℕ → List ℕ) (enable_packed_copy : Bool) where
  unfoldable pub repack : Sending G → Outcome (Sending G)
  repack s =
      let total = total_length s.pending in
      let counted = record s {
        hbf_repacked = suc s.hbf_repacked;
        repack_size_stats = set_value s.repack_size_stats total;
      } in
      if ltb G.page_size total
      then thrown counted
      else (let (o, c) = alloc_copy G block_bytes enable_packed_copy total s.copies in
          elim o [
            | none ↦ thrown (record counted { copies = c })
            | some place ↦ returned (send_copy G place total c counted)
          ])

  unfoldable pub pending_frames_collect : Sending G → Outcome (Sending G)
  pending_frames_collect s = elim s.pending [
    | [] ↦ returned s
    | f ∷ [] ↦ returned (send_frame G f s)
    | f ∷ g ∷ r ↦ repack s
  ]
