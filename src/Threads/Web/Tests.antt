-- ===== src/Threads/Web/Tests.antt =====
-- Two files and two connections at once.
use linux_practice.Base.{◌≤◌}
use linux_practice.Threads.Web.{start, Run, here}
use linux_practice.Threads.Web.Counts.{Tallies, EndsWell, Run-Tallies}
use linux_practice.Threads.Web.Stuck.{IsStuck, stuck, Run-hangs}

stuck_run : Run 2 2 (start 2) (stuck 0)
stuck_run = (Run-hangs {m = 0} here).0

Run-hangs_example : Run 2 2 (start 2) (stuck 0) × IsStuck 1 (stuck 0)
Run-hangs_example = Run-hangs {m = 0} here

Run-Tallies_example :
    Tallies 2 (stuck 0).file 0 1 1 0
    × ((stuck 0).nconn ≤ 2)
    × EndsWell (stuck 0).main 2 (stuck 0).file
Run-Tallies_example = Run-Tallies stuck_run
