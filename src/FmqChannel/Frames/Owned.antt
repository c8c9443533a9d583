-- ===== src/FmqChannel/Frames/Owned.antt =====
-- src/ConsumerFMQchannel.cxx, pendingFramesCollect: the references of the frames and the messages.
use readout.Prelude.{
  Bool, List, Option-intro, [], ap, arith, if-intro, length, length-append, ltb, refl, ℕ, ◌+◌, ◌≡◌,
}
use readout.FmqChannel.{Page, PagePool}
use readout.FmqChannel.Copies.{alloc_copy}
use readout.FmqChannel.Frames.{
  Outcome, Sending, pending_frames_append, pending_frames_collect, repack, returned, send_copy,
  send_frame, thrown, total_length,
}
use readout.FmqChannel.Frames.Sent.{frames-intro}

module _ {G : PagePool} where
  -- Each message and each frame that waits has one.
  abbrev pub IsOwned : Sending G → Type 0
  IsOwned s = s.references ≡ length s.messages + length s.pending

  -- When all that waits was sent, or an exception was thrown.
  abbrev pub OnBoth : Outcome (Sending G) → Type 0
  OnBoth (returned s) = IsOwned s × (s.pending ≡ [])
  OnBoth (thrown s) = IsOwned s

  pub pending_frames_append-IsOwned :
      (start len id : ℕ) (b : Page) (s : Sending G)
      → IsOwned s
      → IsOwned (pending_frames_append G start len id b s)
  unfolding pending_frames_append
  pending_frames_append-IsOwned start len id b s h = omega (arith, h, length-append s.pending)

  module _ (block_bytes : ℕ → List ℕ) (enable_packed_copy : Bool) where
    repack-IsOwned :
        (s : Sending G) → IsOwned s → OnBoth (repack G block_bytes enable_packed_copy s)
    unfolding repack send_copy
    repack-IsOwned s h =
        let total = total_length s.pending in
        if-intro OnBoth (ltb G.page_size total) (λ e. h)
          (λ e.
            Option-intro OnBoth (alloc_copy G block_bytes enable_packed_copy total s.copies).0
              (λ f. h) (λ p f. (omega (arith, h, length-append s.messages), refl)))

    pub pending_frames_collect-IsOwned :
        (s : Sending G)
        → IsOwned s
        → OnBoth (pending_frames_collect G block_bytes enable_packed_copy s)
    unfolding pending_frames_collect send_frame
    pending_frames_collect-IsOwned s h =
        frames-intro OnBoth s.pending (λ e. (h, e))
          (λ f e.
            let n : length s.pending ≡ 1 = ap length e in
            (omega (arith, h, n, length-append s.messages), refl))
          (λ f g r e. repack-IsOwned s h)
