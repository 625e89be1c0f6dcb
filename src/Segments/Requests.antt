-- ===== src/Segments/Requests.antt =====
-- What the kernel is told.
use chronos_project.Base.{◌==◌, if◌then◌else◌, ℕ, ◌≡◌, refl, Option, none, some}
use chronos_project.Base.Int.{ℤ, pos}
use chronos_project.Segments.{
  RtData, Request, do_rt_seg, set_scheduler_call, do_chronos_mutex, rt_seg_add_abort,
  begin_rtseg_selfbasic, begin_rtseg_basic, begin_rtseg_self, begin_rtseg, add_abort_handler_self,
  add_abort_handler, add_abort_handler_selfnodeadline, add_abort_handler_nodeadline,
}

-- The requests that begin a segment or add an abort handler, seen as what the kernel reads of them:
-- of an abort handler's request the priority is not set.
abbrev pub Seen : Type 0
Seen = (ℕ × ℤ × Option ℤ × ℕ) × (ℕ × Option ℕ × Option ℕ)

unfoldable pub seen : Request → Option Seen
seen (do_rt_seg op d) =
    let prio = if op == rt_seg_add_abort then none else some d.prio in
    some ((op, d.tid, prio, d.exec_time), (d.max_util, d.deadline, d.period))
seen (set_scheduler_call s p n m) = none
seen (do_chronos_mutex m op) = none

-- Whatever the stack holds, the four ways to begin a segment and the four ways to add an abort
-- handler tell the kernel the same as the most general one, with thread 0 for the calling thread,
-- no deadline for the variants without one, and zeros for the basic ones.
pub requests_agree :
    (s s' : RtData) (tid prio max_util : ℤ) (deadline period : Option ℕ) (exec_time : ℕ)
    → (seen (begin_rtseg_selfbasic s prio deadline period)
        ≡ seen (begin_rtseg s' (pos 0) prio (pos 0) deadline period 0))
      × (seen (begin_rtseg_basic s tid prio deadline period)
          ≡ seen (begin_rtseg s' tid prio (pos 0) deadline period 0))
      × (seen (begin_rtseg_self s prio max_util deadline period exec_time)
          ≡ seen (begin_rtseg s' (pos 0) prio max_util deadline period exec_time))
      × (seen (add_abort_handler_self s max_util deadline exec_time)
          ≡ seen (add_abort_handler s' (pos 0) max_util deadline exec_time))
      × (seen (add_abort_handler_selfnodeadline s max_util exec_time)
          ≡ seen (add_abort_handler s' (pos 0) max_util none exec_time))
      × (seen (add_abort_handler_nodeadline s tid max_util exec_time)
          ≡ seen (add_abort_handler s' tid max_util none exec_time))
unfolding seen begin_rtseg_selfbasic begin_rtseg begin_rtseg_basic begin_rtseg_self
    add_abort_handler_self add_abort_handler add_abort_handler_selfnodeadline
    add_abort_handler_nodeadline
requests_agree s s' tid prio max_util deadline period exec_time =
    (refl, refl, refl, refl, refl, refl)
