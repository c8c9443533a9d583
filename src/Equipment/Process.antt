-- ===== src/Equipment/Process.antt =====
-- src/ReadoutEquipment.cxx, processRdh as a whole: the tag of a block from its first header, the
-- statistics of the links, and the check of the page. Dumps and the copy of a wrong page are left out.
use readout.Prelude.{
  Bool, Option, false, if-intro, if◌then◌else◌, none, not, refl, some, suc, ℕ, ◌&&◌, ◌==◌, ◌||◌,
  ◌≡◌,
}
use readout.Prelude.Int.{negsuc, pos, ℤ}
use readout.DataBlock.{DataBlockHeader}
use readout.Rdh.{Rdh}
use readout.Equipment.Timeframe.{Timeframes, tag_datablock_from_rdh}
use readout.Equipment.Detector.{check_changes_in_detector_field}
use readout.Equipment.PageCheck.{Checks, Settings, check_page}
use readout.Equipment.PageCheck.Clean.{check_page_lem}
use readout.Equipment.Links.{Links, update_links}

-- What processRdh changes of an equipment; the detector is in the counters of the checks, and
-- `isFatalError` is the sum of the counters of the timeframes and of the links.
pub record Equipment : Type 0 where
  pub timeframes : Timeframes
  pub checks : Checks
  pub links : Links
  pub current_block_id : ℕ

module _ (g : Settings) (rdh_use_first_in_page rdh_check : Bool) where
  -- A first header that is wrong is fatal for the first block, as a wrong orbit is.
  abbrev first_rdh_wrong : Bool → Equipment → Links
  first_rdh_wrong wrong e =
      if wrong && (e.timeframes.rdh_check_first_orbit && e.current_block_id == 0)
      then record e.links { is_fatal_error = suc e.links.is_fatal_error }
      else e.links

  -- The part that reads the first header, when data is not discarded.
  pub read_first : Rdh → DataBlockHeader → Equipment → DataBlockHeader × Equipment
  read_first h bh e =
      let (wrong, bh', t) = tag_datablock_from_rdh h bh e.timeframes in
      (
        if wrong then bh' else record bh' { is_rdh_format = 1 },
        record e {
          timeframes = t;
          links =
              update_links e.timeframes.rdh_check_first_orbit h bh'.data_size
                (first_rdh_wrong wrong e);
        },
      )

  -- The check of the page: whether it has an error.
  pub check_block :
      (ℕ → Rdh) → DataBlockHeader → Equipment → Option (Bool × (DataBlockHeader × Equipment))
  check_block rdh_at bh e = elim (check_page g bh rdh_at e.checks) [
    | none ↦ none
    | some (n, c) ↦ some (c.is_page_error, (bh, record e { checks = c }))
  ]

  -- `processRdh`: -1 without data, 1 for a page with an error, and else 0.
  pub process_rdh :
      ℕ → (ℕ → Rdh) → DataBlockHeader → Equipment → Option (ℤ × (DataBlockHeader × Equipment))
  process_rdh data_ptr rdh_at bh e0 =
      let uses_first = rdh_use_first_in_page || rdh_check in
      let h = rdh_at 0 in
      let d = (check_changes_in_detector_field h e0.checks.detector).1 in
      let e1 = record e0 { checks = record e0.checks { detector = d; is_page_error = false } } in
      let e2 = record e0 { checks = record e0.checks { is_page_error = false } } in
      let (bh', e) = if uses_first then read_first h bh e1 else (bh, e2) in
      if data_ptr == 0
      then some (negsuc 0, (bh, e0))
      else if uses_first && not (d.discard_data == 0)
      then some (pos 0, (bh, e1))
      else if not rdh_check
      then some (pos 0, (bh', e))
      else elim (check_block rdh_at bh' e) [
        | none ↦ none
        | some (wrong, r) ↦ some (if wrong then pos 1 else pos 0, r)
      ]

  abbrev Returns : Option (ℤ × (DataBlockHeader × Equipment)) → Type 0
  Returns o = (r : ℤ × (DataBlockHeader × Equipment)) × (o ≡ some r)

  -- The processing of a block ends, whatever its headers are.
  pub process_rdh_total :
      (data_ptr : ℕ) (rdh_at : ℕ → Rdh) (bh : DataBlockHeader) (e : Equipment)
      → Returns (process_rdh data_ptr rdh_at bh e)
  unfolding process_rdh check_block
  process_rdh_total data_ptr rdh_at bh e0 =
      let uses_first = rdh_use_first_in_page || rdh_check in
      let h = rdh_at 0 in
      let d = (check_changes_in_detector_field h e0.checks.detector).1 in
      let e1 = record e0 { checks = record e0.checks { detector = d; is_page_error = false } } in
      let e2 = record e0 { checks = record e0.checks { is_page_error = false } } in
      let r = if uses_first then read_first h bh e1 else (bh, e2) in
      let (n, c, o, p, q) = check_page_lem g r.0 rdh_at r.1.checks in
      if-intro Returns (data_ptr == 0) (λ e. (_, refl))
        λ e.
          if-intro Returns (uses_first && not (d.discard_data == 0)) (λ e. (_, refl))
            λ e.
              if-intro Returns (not rdh_check) (λ e. (_, refl)) λ e. rw (check_block, o) (_, refl)

  abbrev pub SameId : Equipment → Option (ℤ × (DataBlockHeader × Equipment)) → Type 0
  SameId e none = Unit
  SameId e (some r) = r.1.1.current_block_id ≡ e.current_block_id

  -- The number of blocks is left to the thread.
  pub process_rdh-SameId :
      (data_ptr : ℕ) (rdh_at : ℕ → Rdh) (bh : DataBlockHeader) (e : Equipment)
      → SameId e (process_rdh data_ptr rdh_at bh e)
  unfolding process_rdh check_block read_first
  process_rdh-SameId data_ptr rdh_at bh e0 =
      let uses_first = rdh_use_first_in_page || rdh_check in
      let h = rdh_at 0 in
      let d = (check_changes_in_detector_field h e0.checks.detector).1 in
      let e1 = record e0 { checks = record e0.checks { detector = d; is_page_error = false } } in
      let e2 = record e0 { checks = record e0.checks { is_page_error = false } } in
      let r = if uses_first then read_first h bh e1 else (bh, e2) in
      let (n, c, o, p, q) = check_page_lem g r.0 rdh_at r.1.checks in
      let same : r.1.current_block_id ≡ e0.current_block_id =
        if-intro (λ (x : DataBlockHeader × Equipment). x.1.current_block_id ≡ e0.current_block_id)
          uses_first (λ e. refl) (λ e. refl) in
      if-intro (SameId e0) (data_ptr == 0) (λ e. refl)
        λ e.
          if-intro (SameId e0) (uses_first && not (d.discard_data == 0)) (λ e. refl)
            λ e. if-intro (SameId e0) (not rdh_check) (λ e. same) λ e. rw (check_block, o) same
