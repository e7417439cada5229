-- ===== src/Disk/Comparators.antt =====
-- The comparators of "Disk Scheduling/disksim.c" are orders that `list_sort` can use.
use operating_system_basics.Base.{ℕ, arith}
use operating_system_basics.LinkedList.{IsTotalPreorder}
use operating_system_basics.Disk.{sstf_compare, scan_compare, cscan_compare}

pub sstf_compare-IsTotalPreorder : IsTotalPreorder sstf_compare
unfolding sstf_compare
sstf_compare-IsTotalPreorder = (λ a b. ground arith, λ a b c h k. ground arith)

pub scan_compare-IsTotalPreorder : (elevator : ℕ) → IsTotalPreorder (scan_compare elevator)
unfolding scan_compare
scan_compare-IsTotalPreorder e = (λ a b. ground arith, λ a b c h k. ground arith)

pub cscan_compare-IsTotalPreorder : (elevator : ℕ) → IsTotalPreorder (cscan_compare elevator)
unfolding cscan_compare
cscan_compare-IsTotalPreorder e = (λ a b. ground arith, λ a b c h k. ground arith)
