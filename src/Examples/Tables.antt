-- ===== src/Examples/Tables.antt =====
-- The clock, the counters, the entries, the call sites and the back traces.
use sync_perf.Base.{
  ◌+◌, ◌*◌, ◌≡◌, ◌≤◌, refl, arith, some, none, List, [], ◌∷◌, ◌++◌, ltb, if◌then◌else◌, true,
  length,
}
use sync_perf.Manager.Counters.{SyncData}
use sync_perf.Manager.Contexts.{Context, IsValid, knows, add_new_context, add_new_context-IsValid}
use sync_perf.Manager.Backtrace.{Stack, trace, stored, read_stack, read_stack-trace}
use sync_perf.Manager.Entries.{initialize, draw, get_next_index, get_next_index-initialize}
use sync_perf.Examples.Data.{no_stat}

abbrev quiet : SyncData
quiet = λ _. no_stat

abbrev site : Context
site = record { eip = 4096; esp_offset = 8; stack = [] }

one_site-IsValid : IsValid (site ∷ [])
unfolding knows
one_site-IsValid = record { distinct = (refl, tt); fits = omega arith }

adds_site :
    add_new_context (site ∷ []) 8192 16 []
    ≡ some (site ∷ record { eip = 8192; esp_offset = 16; stack = [] } ∷ [])
unfolding add_new_context
adds_site = refl

add_new_context-IsValid_example :
    IsValid (site ∷ record { eip = 8192; esp_offset = 16; stack = [] } ∷ [])
    × ((more : List Context) × (site ∷ record { eip = 8192; esp_offset = 16; stack = [] } ∷ []
          ≡ (site ∷ []) ++ more)
        × (length more ≤ 1))
    × (knows 8192 (site ∷ record { eip = 8192; esp_offset = 16; stack = [] } ∷ []) ≡ true)
add_new_context-IsValid_example =
    add_new_context-IsValid (site ∷ []) 8192 16 [] one_site-IsValid adds_site

-- Frames of 16 bytes from 1000 to 1160.
abbrev frames : Stack
frames = record {
  frame = λ a. record { prev = a + 16; caller_address = a + 1 };
  stack_top = 1000;
  stack_end = 1160;
}

read_stack-trace_example :
    read_stack (5 + 1) (stored (trace 2 frames 1000 5) (λ _. 99)) 0 ≡ trace 2 frames 1000 5
read_stack-trace_example = read_stack-trace 2 frames 1000 5 (λ _. 99)

get_next_index-initialize_example :
    ((get_next_index (draw 3 (initialize 64 10))).0 ≡ (if ltb 3 10 then some 3 else none))
    × ((if ltb 3 10 then 3 * 64 + 64 else 0) ≤ (initialize 64 10).mapped)
get_next_index-initialize_example =
    get_next_index-initialize 64 10 3 (omega arith) (omega arith) (omega arith)
