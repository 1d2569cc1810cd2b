-- ===== src/SlotSummary/Matching.antt =====
-- The native frame that a frame is matched with was at work when the frame was acquired.
use telar.Prelude.{
  subst, ℕ, zero, suc, ◌+◌, ◌≤◌, ◌≡◌, refl, true, Option, none, some, List, [], ◌∷◌, All, map,
  length, count_if, get_elem?, ltb, leb, Bool-cases, inl, inr, some-injective, arith,
}
use telar.SlotSummary.{Native}
use telar.SlotSummary.Frames.{
  Frame, is_selected, is_complete, insert_worker, sort_workers, add_worker, bisect_right,
  end_or_zero, if_running, worker_before, matching, select_frames,
}

-- Each worker stands with the time at which it began.
abbrev Begun : List (ℕ × Native) → Type 0
Begun workers = All (λ (w : ℕ × Native). w.1.worker_begin ≡ some w.0) workers

insert_worker-Begun :
    (begun : ℕ) (entry : Native) (workers : List (ℕ × Native))
    → entry.worker_begin ≡ some begun
    → Begun workers
    → Begun (insert_worker begun entry workers)
unfolding insert_worker
insert_worker-Begun begun entry [] e b = (e, tt)
insert_worker-Begun begun entry ((first, other) ∷ workers) e (f, b) =
    elim (Bool-cases (ltb first begun)) [
      | inl before ↦ rw before (f, insert_worker-Begun begun entry workers e b)
      | inr behind ↦ rw behind (e, (f, b))
    ]

add_worker-Begun :
    (o : Option ℕ) (entry : Native) (workers : List (ℕ × Native))
    → entry.worker_begin ≡ o
    → Begun workers
    → Begun (add_worker o entry workers)
add_worker-Begun none entry workers e b = b
add_worker-Begun (some begun) entry workers e b = insert_worker-Begun begun entry workers e b

sort_workers-Begun : (entries : List Native) → Begun (sort_workers entries)
unfolding sort_workers
sort_workers-Begun [] = tt
sort_workers-Begun (entry ∷ entries) =
    add_worker-Begun entry.worker_begin entry (sort_workers entries) refl
      (sort_workers-Begun entries)

-- A worker that began by `time`.
abbrev By : ℕ → ℕ × Native → Type 0
By time w = (w.1.worker_begin ≡ some w.0) × (w.0 ≤ time)

worker_before-cons :
    (time index : ℕ) (first w : ℕ × Native) (workers : List (ℕ × Native))
    → By time first
    → (worker_before workers index ≡ some w → By time w)
    → get_elem? (first ∷ workers) index ≡ some w
    → By time w
worker_before-cons time zero first w workers b rest h = subst (By time) (some-injective h) b
worker_before-cons time (suc index) first w workers b rest h = rest h

-- What stands in front of the index that `bisect_right` gives is at most `time`.
worker_before-By :
    (time : ℕ) (workers : List (ℕ × Native)) (w : ℕ × Native)
    → Begun workers
    → worker_before workers (bisect_right time (map (λ (v : ℕ × Native). v.0) workers)) ≡ some w
    → By time w
unfolding bisect_right
worker_before-By time [] w b h = cc
worker_before-By time ((first, other) ∷ workers) w (f, b) h = elim (Bool-cases (leb first time)) [
  | inl le ↦
      worker_before-cons time (bisect_right time (map (λ (v : ℕ × Native). v.0) workers))
        (first, other) w workers (f, ground (arith, le)) (worker_before-By time workers w b)
        (rw le at h)
  | inr gt ↦ cc (rw gt at h)
]

-- The worker began by `time` and ended no earlier; the end of one that did not end reads as zero.
pub record WasAtWork (time : ℕ) (worker : Native) : Type 0 where
  pub begun : ℕ
  pub at : worker.worker_begin ≡ some begun
  pub began : begun ≤ time
  pub ended : time ≤ end_or_zero worker.worker_end

if_running-WasAtWork :
    (time : ℕ) (o : Option (ℕ × Native)) (worker : Native)
    → ((w : ℕ × Native) → o ≡ some w → By time w)
    → if_running time o ≡ some worker
    → WasAtWork time worker
if_running-WasAtWork time none worker b h = cc
if_running-WasAtWork time (some (begun, other)) worker b h =
    elim (Bool-cases (leb time (end_or_zero other.worker_end))) [
      | inl running ↦ subst (WasAtWork time) (some-injective (rw running at h)) (record {
        begun = begun;
        at = (b (begun, other) refl).0;
        began = (b (begun, other) refl).1;
        ended = ground (arith, running);
      })
      | inr over ↦ cc (rw over at h)
    ]

matching-WasAtWork :
    (entries : List Native) (time : ℕ) (worker : Native)
    → matching (sort_workers entries) time ≡ some worker
    → WasAtWork time worker
unfolding matching
matching-WasAtWork entries time worker h =
    if_running-WasAtWork time _ worker
      (λ w e. worker_before-By time (sort_workers entries) w (sort_workers-Begun entries) e) h

-- A frame that `summarize` keeps, with the native frame it is matched with.
pub record IsKept (start stop : ℕ) (kept : Frame × Option Native) : Type 0 where
  pub selected : is_selected start stop kept.0 ≡ true
  pub complete : is_complete kept.0 ≡ true
  pub at_work : (worker : Native) → kept.1 ≡ some worker → WasAtWork kept.0.acquire_begin worker

-- Every frame that `summarize` keeps was acquired in the interval and is complete, and a native
-- frame that it is matched with was at work when the frame was acquired; the kept frames and the
-- rejected ones together are the frames acquired in the interval.
pub select_frames-IsKept :
    (start stop : ℕ) (entries : List Native) (frames : List Frame)
    → let (good, rejected) = select_frames start stop (sort_workers entries) frames in
      All (IsKept start stop) good
      × (length good + rejected ≡ count_if (is_selected start stop) frames)
unfolding select_frames
select_frames-IsKept start stop entries [] = (tt, refl)
select_frames-IsKept start stop entries (frame ∷ frames) =
    let (kept, counted) = select_frames-IsKept start stop entries frames in
    (
      elim (Bool-cases (is_selected start stop frame)) [
        | inl inside ↦ elim (Bool-cases (is_complete frame)) [
          | inl complete ↦
              rw (inside, complete)
                (
                  record {
                    selected = inside;
                    complete = complete;
                    at_work = λ worker h. matching-WasAtWork entries frame.acquire_begin worker h;
                  },
                  kept,
                )
          | inr lacking ↦ rw (inside, lacking) kept
        ]
        | inr outside ↦ rw outside kept
      ],
      ground (arith, counted),
    )
