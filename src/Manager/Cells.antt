-- ===== src/Manager/Cells.antt =====
-- source/mutex_manager.cpp, `get_thread_mutex_data`: the array of counters as a table.
use mathlib.Core.Equiv.{IsEquiv, Iso, iso_to_equiv}
use mathlib.Core.HLevel.{Σ_prop_path}
use native.Mathlib.Bridge.{le_prop}
use Prim.Native.Nat.{Fin}
use sync_perf.Base.{ℕ, ◌*◌, ◌/◌, ◌%◌, ◌<◌, ◌≡◌, arith}
use sync_perf.Manager.Counters.{max_sync_entries, max_threads, data_index, data_index_bounds}

Fin_path : (n : ℕ) (a b : Fin n) → a.0 ≡ b.0 → a ≡ b
Fin_path n a b e = Σ_prop_path (λ i. le_prop) e

-- A mutex and a thread.
pub record Slot : Type 0 where
  pub mutex : Fin max_sync_entries
  pub thread : Fin max_threads

-- The cell of the array that the code computes for a mutex and a thread.
abbrev pub cell_of : Slot → Fin (max_sync_entries * max_threads)
cell_of s =
    let (m, hm) = s.mutex in
    let (t, ht) = s.thread in
    let (_, below, _) = data_index_bounds m t hm ht in (data_index m t, below)

abbrev slot_of : Fin (max_sync_entries * max_threads) → Slot
slot_of (i, h) = record {
  mutex = (i % max_sync_entries, omega arith);
  thread = (i / max_sync_entries, omega arith);
}

at_slot :
    (i : ℕ)
    → i < max_sync_entries * max_threads
    → data_index (i % max_sync_entries) (i / max_sync_entries) ≡ i
unfolding data_index
at_slot i h = omega arith

mutex_at :
    (m t : ℕ) → m < max_sync_entries → t < max_threads → data_index m t % max_sync_entries ≡ m
unfolding data_index
mutex_at m t hm ht = omega arith

thread_at :
    (m t : ℕ) → m < max_sync_entries → t < max_threads → data_index m t / max_sync_entries ≡ t
unfolding data_index
thread_at m t hm ht = omega arith

abbrev cells : Iso Slot (Fin (max_sync_entries * max_threads))
cells = record {
  fun = cell_of;
  inv = slot_of;
  rinv = λ c. Fin_path _ (cell_of (slot_of c)) c (at_slot c.0 c.1);
  linv = λ s i. record {
    mutex =
        Fin_path _ (slot_of (cell_of s)).mutex s.mutex
          (mutex_at s.mutex.0 s.thread.0 s.mutex.1 s.thread.1) i;
    thread =
        Fin_path _ (slot_of (cell_of s)).thread s.thread
          (thread_at s.mutex.0 s.thread.0 s.mutex.1 s.thread.1) i;
  };
}

-- The mutexes and threads within the limits correspond one to one to the cells of the array that
-- the code maps: each cell is the cell of exactly one mutex and thread.
pub cell_of-IsEquiv : IsEquiv cell_of
cell_of-IsEquiv = (iso_to_equiv cells).1
