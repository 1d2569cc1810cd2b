-- ===== src/SlotSummary/Waits.antt =====
-- For how long each frame that held the slot kept a view waiting, and the times between two marks of
-- a native frame: `eligible_by_frame` and the native metrics of `summarize`, in nanoseconds, before
-- the division by 1e6.
use telar.Prelude.{ℕ, ◌+◌, ◌-◌, min, max, Option, none, some, List, [], ◌∷◌, ◌==◌, if◌then◌else◌}
use telar.Prelude.Int.{ℤ, sub_ℕ}
use telar.SlotSummary.{Native}
use telar.SlotSummary.Frames.{Frame}

-- `sum(max(0, min(high, complete) - max(low, enqueue)) for low, high in eligible)`
unfoldable pub waited : List (ℕ × ℕ) → ℕ → ℕ → ℕ
waited [] enqueue complete = 0
waited ((low, high) ∷ eligible) enqueue complete =
    (min high complete - max low enqueue) + waited eligible enqueue complete

abbrev pub add_waited : List (ℕ × ℕ) → Option ℕ → Option ℕ → List ℕ → List ℕ
add_waited eligible (some enqueue) (some complete) waits = waited eligible enqueue complete ∷ waits
add_waited eligible (some enqueue) none waits = waits
add_waited eligible none complete waits = waits

-- `eligible_by_frame`: a frame without a native frame has neither time.
unfoldable pub eligible_waits : List (ℕ × ℕ) → List (Frame × Option Native) → List ℕ
unfolding waited
eligible_waits eligible [] = []
eligible_waits eligible ((frame, none) ∷ good) = eligible_waits eligible good
eligible_waits eligible ((frame, some entry) ∷ good) =
    add_waited eligible entry.enqueue entry.complete (eligible_waits eligible good)

-- A span is recorded where both marks are set and neither is 0.
abbrev pub add_span : Option ℕ → Option ℕ → List ℤ → List ℤ
add_span (some first) (some last) spans =
    if first == 0 then spans else if last == 0 then spans else sub_ℕ last first ∷ spans
add_span (some first) none spans = spans
add_span none last spans = spans

unfoldable pub native_spans :
    (Native → Option ℕ) → (Native → Option ℕ) → List (Frame × Option Native) → List ℤ
native_spans first last [] = []
native_spans first last ((frame, none) ∷ good) = native_spans first last good
native_spans first last ((frame, some entry) ∷ good) =
    add_span (first entry) (last entry) (native_spans first last good)

pub record NativeMetrics : Type 0 where
  pub render_cpu : List ℤ
  pub worker_dispatch : List ℤ
  pub worker : List ℤ
  pub main_completion_delay : List ℤ
  pub native_slot_occupied : List ℤ

unfoldable pub native_metrics : List (Frame × Option Native) → NativeMetrics
unfolding native_spans
native_metrics good = record {
  render_cpu = native_spans (λ e. e.render_begin) (λ e. e.render_end) good;
  worker_dispatch = native_spans (λ e. e.enqueue) (λ e. e.worker_begin) good;
  worker = native_spans (λ e. e.worker_begin) (λ e. e.worker_end) good;
  main_completion_delay = native_spans (λ e. e.worker_end) (λ e. e.complete) good;
  native_slot_occupied = native_spans (λ e. e.enqueue) (λ e. e.complete) good;
}
