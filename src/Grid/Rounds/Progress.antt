-- ===== src/Grid/Rounds/Progress.antt =====
-- lab8/zad01: the threads can always get to their `pause`, so `main` draws one frame after another.
use operating_systems_agh.Prelude.{
  ℕ, zero, suc, ◌+◌, ◌<◌, ◌≤◌, ◌≡◌, ◌∙◌, ap, sym, refl, some, List, [], ◌∷◌, map, arith, length,
  length-set, length-append, get_elem?, get_elem?-some, get_elem?-set_self, get_elem?-set_ne, set,
  ℕ_discrete, All, lt_of_get_elem?,
}
use operating_systems_agh.Grid.{ThreadData}
use operating_systems_agh.Grid.Rounds.{
  to_work, to_pause, paused, Thread, to_step, Life, main_turn, woken, thread, step_main, step,
  start, started, IsPaused, Calm, here, next,
}
use operating_systems_agh.Grid.Rounds.Work.{size, generation, woken_cell}
use operating_systems_agh.Grid.Rounds.Runs.{
  after_work, after_pause, turn-work, turn-pause, step-thread, after_draw, after_signal, turn-draw,
  turn-signal, frame_lem,
}

-- The threads before `i` are in `pause`, the others have not worked yet.
pub record IsSplit (i : ℕ) (ts : List Thread) : Type 0 where
  pub before : (n : ℕ) (t : Thread) → get_elem? ts n ≡ some t → n < i → t.phase ≡ paused
  pub after : (n : ℕ) (t : Thread) → get_elem? ts n ≡ some t → i ≤ n → t.phase ≡ to_work

phase_of : {u t : Thread} → some u ≡ some t → u.phase ≡ paused → t.phase ≡ paused
phase_of e p = cc

IsSplit-set :
    (i : ℕ) (ts : List Thread) (u x : Thread)
    → IsSplit i ts
    → u.phase ≡ paused
    → IsSplit (suc i) (set (set ts i x) i u)
IsSplit-set i ts u x h p = record {
  before = λ n t e lt. elim (ℕ_discrete i n) [
    | yes same ↦
        let lt' = lt_of_get_elem? (set (set ts i x) i u) n e in
        let got =
          get_elem?-set_self (set ts i x) i u (omega (arith, length-set (set ts i x) i u)) in
        let other : get_elem? (set (set ts i x) i u) i ≡ some t =
          ap (get_elem? (set (set ts i x) i u)) same ∙ e in
        phase_of (sym got ∙ other) p
    | no ne ↦
        h.before n t (sym (get_elem?-set_ne ts x ne) ∙ sym (get_elem?-set_ne (set ts i x) u ne) ∙ e)
          (omega arith)
  ];
  after = λ n t e le.
      h.after n t
        (sym (get_elem?-set_ne ts x (omega arith))
          ∙ sym (get_elem?-set_ne (set ts i x) u (omega arith))
          ∙ e)
        (omega arith);
}

All-IsPaused : (ts : List Thread) → IsSplit (length ts) ts → All IsPaused ts
All-IsPaused [] h = tt
All-IsPaused (t ∷ ts) h = (
  h.before 0 t refl (omega arith),
  All-IsPaused ts (record {
    before = λ n u e lt. h.before (suc n) u e (omega arith);
    after = λ n u e le. h.after (suc n) u e (omega arith);
  }),
)

step_main_eq : (w : Life) {v : Life} → main_turn w ≡ v → step step_main w ≡ some v
unfolding step
step_main_eq w e = ap some e

woken_phase :
    (ts : List Thread)
    → All IsPaused ts
    → (n : ℕ) (t : Thread) → get_elem? (map woken ts) n ≡ some t
    → t.phase ≡ to_work
woken_phase [] calm n t e = absurd (cc)
woken_phase (x ∷ ts) calm zero t e = cc (woken_cell x calm.0)
woken_phase (x ∷ ts) calm (suc n) t e = woken_phase ts calm.1 n t e

started_phase :
    (cs : List ThreadData) (n : ℕ) (t : Thread)
    → get_elem? (started cs) n ≡ some t
    → t.phase ≡ to_work
started_phase [] n t e = absurd (cc)
started_phase (c ∷ cs) zero t e = cc
started_phase (c ∷ cs) (suc n) t e = started_phase cs n t e

module _ (s : Life) where
  thread_moves : {w v : Life} (i : ℕ) → Calm s w → step (thread i) w ≡ some v → Calm s v
  thread_moves i r e = next (thread i) r (λ h. absurd (cc (h.0))) e

  settle :
      (left i : ℕ) (w : Life)
      → Calm s w
      → length w.threads ≡ i + left
      → IsSplit i w.threads
      → (v : Life) × Calm s v × All IsPaused v.threads × (v.main ≡ w.main) × (v.frames ≡ w.frames)
  settle zero i w r len split = (w, r, All-IsPaused w.threads (rw (← counted) split), refl, refl)
    where
      counted : i ≡ length w.threads
      counted = omega arith
  settle (suc left) i w r len split =
      let (t, at) = get_elem?-some w.threads i (omega arith) in
      let phase = split.after i t at (omega arith) in
      let worked = after_work i w t in
      let t' : Thread = record t { phase = to_pause } in
      let at' = get_elem?-set_self w.threads i t' (omega arith) in
      let r' =
        thread_moves {w = w} {v = worked} i r (step-thread i w t at (turn-work i w t phase)) in
      let r'' =
        thread_moves {w = worked} {v = after_pause i worked t'} i r'
          (step-thread i worked t' at' (turn-pause i worked t' refl)) in
      settle left (suc i) (after_pause i worked t') r''
        (omega (
          arith,
          length-set w.threads i t',
          length-set (set w.threads i t') i (record t' { phase = paused }),
        ))
        (IsSplit-set i w.threads (record t' { phase = paused }) t' split refl)

  -- One round of signals, and the frame after it.
  next_frame :
      (w : Life)
      → Calm s w
      → w.main ≡ to_step
      → IsSplit 0 w.threads
      → (v : Life) × Calm s v
        × (v.main ≡ to_step)
        × IsSplit 0 v.threads
        × (length v.frames ≡ suc (length w.frames))
  next_frame w r at split =
      let (v, rv, calm, main, frames) = settle (length w.threads) 0 w r (omega arith) split in
      let signalled = after_signal v in
      let e : step step_main v ≡ some signalled = step_main_eq v (turn-signal v (main ∙ at)) in
      let rs = next {w = signalled} step_main rv (λ _. calm) e in
      let drawn = after_draw signalled in
      let f : step step_main signalled ≡ some drawn =
        step_main_eq signalled (turn-draw signalled refl) in
      let rd = next {w = drawn} step_main rs (λ h. absurd (cc (h.1))) f in
      (
        drawn,
        rd,
        refl,
        record {
          before = λ n t e lt. absurd (omega arith);
          after = λ n t e le. woken_phase v.threads calm n t e;
        },
        length-append v.frames (signalled.memory signalled.front ∷ [])
            ∙ omega (arith, ap (λ (l : List (List ℕ)). length l) frames),
      )

module _ (g back : List ℕ) (wide : length g ≡ size) (room : length back ≡ size) where
  frames_drawn :
      (m : ℕ)
      → (w : Life) × Calm (start g back) w
        × (w.main ≡ to_step)
        × IsSplit 0 w.threads
        × (length w.frames ≡ suc m)
  frames_drawn zero = (
    start g back,
    here,
    refl,
    record { before = λ n t e lt. absurd (omega arith); after = λ n t e le. started_phase _ n t e },
    refl,
  )
  frames_drawn (suc m) =
      let (w, r, at, split, len) = frames_drawn m in
      let (v, r', at', split', len') = next_frame (start g back) w r at split in
      (v, r', at', split', len' ∙ ap suc len)

  -- For every `m` there is a run in which the signals find each thread in `pause`, that has drawn `m + 1` frames; the
  -- last one is generation `m`.
  pub every_frame_comes :
      (m : ℕ)
      → (w : Life) × Calm (start g back) w
        × (length w.frames ≡ suc m)
        × (get_elem? w.frames m ≡ some (generation g m))
  every_frame_comes m =
      let (w, r, at, split, len) = frames_drawn m in
      (w, r, len, frame_lem g back wide room m r (omega arith))
