-- ===== src/Report/Sums.antt =====
-- The totals of a mutex as sums (source/report.h).
use sync_perf.Base.{ℕ, zero, suc, ◌≡◌, refl, arith, u32, total}
use sync_perf.Manager.Counters.{SyncData, get_thread_mutex_data}
use sync_perf.Report.Totals.{sum_threads}

-- The totals of the report are the sums over the threads: of the accesses and of the failures,
-- modulo 2 ^ 32.
pub sum_threads-total :
    (d : SyncData) (entry n : ℕ)
    → ((sum_threads d entry n).access_count
        ≡ u32 (total (λ t. t.access_count) n (get_thread_mutex_data d entry)))
      × ((sum_threads d entry n).fail_count
          ≡ u32 (total (λ t. t.fail_count) n (get_thread_mutex_data d entry)))
unfolding sum_threads total
sum_threads-total d entry zero = (refl, refl)
sum_threads-total d entry (suc n) =
    let (a, f) = sum_threads-total d entry n in (ground (arith, a), ground (arith, f))
