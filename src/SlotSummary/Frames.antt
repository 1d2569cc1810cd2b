-- ===== src/SlotSummary/Frames.antt =====
-- Which frames `summarize` keeps, and the native frame that it matches with each.
use telar.Prelude.{
  ℕ, zero, suc, Bool, not, ◌&&◌, ◌||◌, Option, none, some, List, [], ◌∷◌, map, get_elem?, ltb, leb,
  ◌==◌, if◌then◌else◌,
}
use telar.Prelude.Int.{ℤ, pos, eq_ℤ}
use telar.SlotSummary.{Native}

pub record Frame : Type 0 where
  pub acquire_begin : ℕ
  pub acquire_end : ℕ
  pub encode_begin : ℕ
  pub encode_end : ℕ
  pub submit_begin : ℕ
  pub submit_end : ℕ
  pub present_begin : ℕ
  pub present_end : ℕ
  pub fence_begin : ℕ
  pub fence_end : ℕ
  -- Vulkan results
  pub acquired : ℤ
  pub submitted : ℤ
  pub presented : ℤ
  pub completed : ℤ

-- `start <= frame["acquire_begin"] < end`
abbrev pub is_selected : ℕ → ℕ → Frame → Bool
is_selected start stop frame = leb start frame.acquire_begin && ltb frame.acquire_begin stop

abbrev is_set : ℕ → Bool
is_set t = not (t == 0)

-- `in (0, 1000001003)`: success, or a swapchain that still works.
abbrev presentable : ℤ → Bool
presentable status = eq_ℤ status (pos 0) || eq_ℤ status (pos 1000001003)

unfoldable pub is_complete : Frame → Bool
is_complete frame =
    is_set frame.acquire_end
    && is_set frame.encode_begin
    && is_set frame.encode_end
    && is_set frame.submit_begin
    && is_set frame.submit_end
    && is_set frame.present_begin
    && is_set frame.present_end
    && is_set frame.fence_begin
    && is_set frame.fence_end
    && presentable frame.acquired
    && eq_ℤ frame.submitted (pos 0)
    && presentable frame.presented
    && eq_ℤ frame.completed (pos 0)

-- The native frames with a `worker_begin`, sorted by it.
unfoldable pub insert_worker : ℕ → Native → List (ℕ × Native) → List (ℕ × Native)
insert_worker begun entry [] = (begun, entry) ∷ []
insert_worker begun entry ((first, other) ∷ workers) =
    let rest = insert_worker begun entry workers in
    if ltb first begun then (first, other) ∷ rest else (begun, entry) ∷ (first, other) ∷ workers

abbrev pub add_worker : Option ℕ → Native → List (ℕ × Native) → List (ℕ × Native)
add_worker none entry workers = workers
add_worker (some begun) entry workers = insert_worker begun entry workers

unfoldable pub sort_workers : List Native → List (ℕ × Native)
unfolding insert_worker
sort_workers [] = []
sort_workers (entry ∷ entries) = add_worker entry.worker_begin entry (sort_workers entries)

-- `bisect.bisect_right` on a sorted list: behind the last value that is at most `time`.
unfoldable pub bisect_right : ℕ → List ℕ → ℕ
bisect_right time [] = 0
bisect_right time (first ∷ times) =
    let rest = bisect_right time times in if leb first time then suc rest else 0

abbrev pub end_or_zero : Option ℕ → ℕ
end_or_zero none = 0
end_or_zero (some t) = t

abbrev pub if_running : ℕ → Option (ℕ × Native) → Option Native
if_running time none = none
if_running time (some (begun, worker)) =
    if leb time (end_or_zero worker.worker_end) then some worker else none

abbrev pub worker_before : List (ℕ × Native) → ℕ → Option (ℕ × Native)
worker_before workers zero = none
worker_before workers (suc index) = get_elem? workers index

-- The last worker that began by then, if it had not ended.
unfoldable pub matching : List (ℕ × Native) → ℕ → Option Native
unfolding bisect_right
matching workers time =
    if_running time
      (worker_before workers (bisect_right time (map (λ (w : ℕ × Native). w.0) workers)))

-- The complete frames with their native frames, and the number of the others in the interval.
unfoldable pub select_frames :
    ℕ → ℕ → List (ℕ × Native) → List Frame → List (Frame × Option Native) × ℕ
unfolding is_complete matching
select_frames start stop workers [] = ([], 0)
select_frames start stop workers (frame ∷ frames) =
    let (good, rejected) = select_frames start stop workers frames in
    if is_selected start stop frame
    then (if is_complete frame
        then ((frame, matching workers frame.acquire_begin) ∷ good, rejected)
        else (good, suc rejected))
    else (good, rejected)
