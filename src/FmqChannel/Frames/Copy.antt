-- ===== src/FmqChannel/Frames/Copy.antt =====
-- src/ConsumerFMQchannel.cxx, pendingFramesCollect: what the copies of several frames write.
use readout.Prelude.{
  All, List, [], ap, append_assoc, arith, length, length-append, refl, sym, ℕ, ◌++◌, ◌+◌, ◌∙◌, ◌∷◌,
  ◌≡◌, ◌≤◌,
}
use readout.FmqChannel.Bytes.{length-slice, overwrite, overwrite-nil, overwrite-overwrite}
use readout.FmqChannel.Frames.{PendingFrame, copy_frames, frame_bytes, total_length}

-- A frame has a byte at least, and stands in its page.
pub record IsWhole (f : PendingFrame) : Type 0 where
  pub is_some : 1 ≤ f.hb_length
  pub is_inside : f.hb_start + f.hb_length ≤ length f.page.payload

-- The bytes of the frames, in order.
abbrev pub joined : List PendingFrame → List ℕ
joined [] = []
joined (f ∷ fs) = frame_bytes f ++ joined fs

pub joined-append : (fs gs : List PendingFrame) → joined (fs ++ gs) ≡ joined fs ++ joined gs
joined-append [] gs = refl
joined-append (f ∷ fs) gs =
    rw (joined-append fs gs, append_assoc (frame_bytes f) (joined fs) (joined gs)) refl

pub length-frame_bytes : (f : PendingFrame) → IsWhole f → length (frame_bytes f) ≡ f.hb_length
length-frame_bytes f w = length-slice f.hb_start f.hb_length f.page.payload w.is_inside

pub length-joined : (fs : List PendingFrame) → All IsWhole fs → length (joined fs) ≡ total_length fs
unfolding total_length
length-joined [] h = refl
length-joined (f ∷ fs) (w, h) =
    omega
      (arith, length-append (frame_bytes f) (joined fs), length-frame_bytes f w, length-joined fs h)

pub copy_frames_lem :
    (ix : ℕ) (fs : List PendingFrame) (bytes : List ℕ)
    → All IsWhole fs
    → copy_frames ix fs bytes ≡ overwrite bytes ix (joined fs)
unfolding copy_frames
copy_frames_lem ix [] bytes h = sym (overwrite-nil bytes ix)
copy_frames_lem ix (f ∷ fs) bytes (w, h) =
    let part = frame_bytes f in
    copy_frames_lem (ix + f.hb_length) fs (overwrite bytes ix part) h
    ∙ ap (λ n. overwrite (overwrite bytes ix part) (ix + n) (joined fs))
        (sym (length-frame_bytes f w))
    ∙ overwrite-overwrite bytes ix part (joined fs)
