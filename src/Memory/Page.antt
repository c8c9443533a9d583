-- ===== src/Memory/Page.antt =====
-- src/MemoryPagesPool.h and .cxx, class MemoryPage: the metadata of one page of a pool, with the
-- time that it spent in each state. The steady clock is an argument.
pub mod Times
mod Tests
use readout.Prelude.{
  Bool, List, false, get_or, if◌then◌else◌, replicate, set, true, ℕ, ◌+◌, ◌-◌, ◌==◌,
}
use readout.DataBlock.{DataBlockHeader}

pub data PageState : Type 0 where
  idle allocated in_roc in_equipment in_equipment_fifo_out in_aggregator : PageState
  in_aggregator_fifo_out in_consumer in_fmq undefined : PageState

-- The value of the enumerator.
abbrev pub state_index : PageState → ℕ
state_index idle = 0
state_index allocated = 1
state_index in_roc = 2
state_index in_equipment = 3
state_index in_equipment_fifo_out = 4
state_index in_aggregator = 5
state_index in_aggregator_fifo_out = 6
state_index in_consumer = 7
state_index in_fmq = 8
state_index undefined = 9

pub record TimeCounter : Type 0 where
  pub t0_is_valid : Bool
  pub t0 : ℕ
  pub duration : ℕ

-- `header` is the header of the data block that is kept beside the page.
pub record MemoryPage : Type 0 where
  pub page_ptr : ℕ
  pub page_size : ℕ
  pub page_id : ℕ
  pub header : DataBlockHeader
  pub page_state_times : List TimeCounter
  pub current_page_state : PageState

abbrev pub no_time : TimeCounter
no_time = record { t0_is_valid = false; t0 = 0; duration = 0 }

-- `pageStateTimes[(int)s]`
abbrev pub time_of : List TimeCounter → PageState → TimeCounter
time_of ts s = get_or ts (state_index s) no_time

abbrev pub same_state : PageState → PageState → Bool
same_state s t = state_index s == state_index t

abbrev is_undefined : PageState → Bool
is_undefined s = same_state s undefined

-- The two readings of the clock in `setPageState`: when a state is left, and when one is entered.
abbrev pub Readings : Type 0
Readings = ℕ × ℕ

-- The time since the state was entered is added up, and the state is left.
pub leave : ℕ → TimeCounter → TimeCounter
leave now c = record c {
  duration = if c.t0_is_valid then c.duration + (now - c.t0) else c.duration;
  t0_is_valid = false;
}

pub enter : ℕ → TimeCounter → TimeCounter
enter now c = record c { t0 = now; t0_is_valid = true }

leave_times : ℕ → PageState → List TimeCounter → List TimeCounter
leave_times now s ts =
    if is_undefined s then ts else set ts (state_index s) (leave now (time_of ts s))

enter_times : ℕ → PageState → List TimeCounter → List TimeCounter
enter_times now s ts =
    if is_undefined s then ts else set ts (state_index s) (enter now (time_of ts s))

pub set_page_state : Readings → PageState → MemoryPage → MemoryPage
unfolding leave_times enter_times
set_page_state (t, u) s p = if same_state s p.current_page_state then p else record p {
  page_state_times = enter_times u s (leave_times t p.current_page_state p.page_state_times);
  current_page_state = s;
}

pub reset_page_states : MemoryPage → MemoryPage
reset_page_states p = record p {
  page_state_times = replicate (state_index undefined) no_time;
  current_page_state = undefined;
}

pub get_page_state_duration : MemoryPage → PageState → ℕ
get_page_state_duration p s = if is_undefined s then 0 else (time_of p.page_state_times s).duration
