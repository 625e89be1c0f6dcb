-- ===== src/Segments/Tests.antt =====
-- Requests of two stacks.
use chronos_project.Base.{none, some}
use chronos_project.Base.Int.{pos}
use chronos_project.Segments.{RtData}

abbrev zeros : RtData
zeros = record {
  tid = pos 0;
  prio = pos 0;
  exec_time = 0;
  max_util = 0;
  deadline = none;
  period = none;
}

abbrev other : RtData
other = record {
  tid = pos 7;
  prio = pos 9;
  exec_time = 5;
  max_util = 3;
  deadline = some 0x1000;
  period = some 0x2000;
}
