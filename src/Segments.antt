-- ===== src/Segments.antt =====
-- The wrappers of the real-time system calls: libchronos/chronos.c. Each function's value is the
-- system call that it makes. `stack` is what the local struct holds before its fields are set.
mod Tests
pub mod Requests
use chronos_project.Base.{length, ℕ, Option, none}
use chronos_project.Base.Int.{ℤ, pos, to_u32}

-- `struct rt_data`. A pointer to a timespec is its address, `none` the null pointer; `prio` and
-- `tid` are `int`s, `max_util` is kept as its 32 bits.
pub record RtData : Type 0 where
  pub tid : ℤ
  pub prio : ℤ
  pub exec_time : ℕ
  pub max_util : ℕ
  pub deadline : Option ℕ
  pub period : Option ℕ

-- `chronos_mutex_t`.
pub record MutexData : Type 0 where
  pub value : ℕ
  pub owner : ℤ
  pub id : ℕ

pub data Request : Type 0 where
  do_rt_seg : (op : ℕ) → RtData → Request
  set_scheduler_call : (scheduler prio : ℤ) (length mask : ℕ) → Request
  do_chronos_mutex : (mutex op : ℕ) → Request

abbrev pub rt_seg_begin : ℕ
rt_seg_begin = 0

abbrev pub rt_seg_end : ℕ
rt_seg_end = 1

abbrev pub rt_seg_add_abort : ℕ
rt_seg_add_abort = 2

abbrev pub mutex_request : ℕ
mutex_request = 0

abbrev pub mutex_release : ℕ
mutex_release = 1

abbrev pub mutex_init : ℕ
mutex_init = 2

abbrev pub mutex_destroy : ℕ
mutex_destroy = 3

module _ (stack : RtData) where
  unfoldable pub begin_rtseg_selfbasic : (prio : ℤ) (deadline period : Option ℕ) → Request
  begin_rtseg_selfbasic prio deadline period = do_rt_seg rt_seg_begin (record stack {
    tid = pos 0;
    prio = prio;
    max_util = 0;
    exec_time = 0;
    period = period;
    deadline = deadline;
  })

  unfoldable pub begin_rtseg_basic : (tid prio : ℤ) (deadline period : Option ℕ) → Request
  begin_rtseg_basic tid prio deadline period = do_rt_seg rt_seg_begin (record stack {
    tid = tid;
    prio = prio;
    max_util = 0;
    exec_time = 0;
    period = period;
    deadline = deadline;
  })

  unfoldable pub begin_rtseg_self :
      (prio max_util : ℤ) (deadline period : Option ℕ) (exec_time : ℕ) → Request
  begin_rtseg_self prio max_util deadline period exec_time = do_rt_seg rt_seg_begin (record stack {
    tid = pos 0;
    prio = prio;
    max_util = to_u32 max_util;
    exec_time = exec_time;
    period = period;
    deadline = deadline;
  })

  unfoldable pub begin_rtseg :
      (tid prio max_util : ℤ) (deadline period : Option ℕ) (exec_time : ℕ) → Request
  begin_rtseg tid prio max_util deadline period exec_time = do_rt_seg rt_seg_begin (record stack {
    tid = tid;
    prio = prio;
    max_util = to_u32 max_util;
    exec_time = exec_time;
    period = period;
    deadline = deadline;
  })

  unfoldable pub end_rtseg_self : (prio : ℤ) → Request
  end_rtseg_self prio =
      do_rt_seg rt_seg_end
        (record stack { tid = pos 0; prio = prio; period = none; deadline = none })

  unfoldable pub end_rtseg : (tid prio : ℤ) → Request
  end_rtseg tid prio =
      do_rt_seg rt_seg_end (record stack { tid = tid; prio = prio; period = none; deadline = none })

  unfoldable pub add_abort_handler_self :
      (max_util : ℤ) (deadline : Option ℕ) (exec_time : ℕ) → Request
  add_abort_handler_self max_util deadline exec_time = do_rt_seg rt_seg_add_abort (record stack {
    tid = pos 0;
    max_util = to_u32 max_util;
    exec_time = exec_time;
    period = none;
    deadline = deadline;
  })

  unfoldable pub add_abort_handler :
      (tid max_util : ℤ) (deadline : Option ℕ) (exec_time : ℕ) → Request
  add_abort_handler tid max_util deadline exec_time = do_rt_seg rt_seg_add_abort (record stack {
    tid = tid;
    max_util = to_u32 max_util;
    exec_time = exec_time;
    period = none;
    deadline = deadline;
  })

  unfoldable pub add_abort_handler_selfnodeadline : (max_util : ℤ) (exec_time : ℕ) → Request
  add_abort_handler_selfnodeadline max_util exec_time = do_rt_seg rt_seg_add_abort (record stack {
    tid = pos 0;
    max_util = to_u32 max_util;
    exec_time = exec_time;
    period = none;
    deadline = none;
  })

  unfoldable pub add_abort_handler_nodeadline : (tid max_util : ℤ) (exec_time : ℕ) → Request
  add_abort_handler_nodeadline tid max_util exec_time = do_rt_seg rt_seg_add_abort (record stack {
    tid = tid;
    max_util = to_u32 max_util;
    exec_time = exec_time;
    period = none;
    deadline = none;
  })

-- The mask has 8 bytes.
unfoldable pub set_scheduler : (scheduler prio : ℤ) (cpus : ℕ) → Request
set_scheduler scheduler prio cpus = set_scheduler_call scheduler prio 8 cpus

-- The mutex after the two assignments, and the call with its address.
unfoldable pub chronos_mutex_init : (mutex : ℕ) → MutexData → MutexData × Request
chronos_mutex_init mutex m =
    (record m { value = 0; owner = pos 0 }, do_chronos_mutex mutex mutex_init)

unfoldable pub chronos_mutex_destroy : (mutex : ℕ) → Request
chronos_mutex_destroy mutex = do_chronos_mutex mutex mutex_destroy

unfoldable pub chronos_mutex_lock : (mutex : ℕ) → Request
chronos_mutex_lock mutex = do_chronos_mutex mutex mutex_request

unfoldable pub chronos_mutex_unlock : (mutex : ℕ) → Request
chronos_mutex_unlock mutex = do_chronos_mutex mutex mutex_release

unfoldable pub chronos_mutex_owner : MutexData → ℤ
chronos_mutex_owner m = m.owner
