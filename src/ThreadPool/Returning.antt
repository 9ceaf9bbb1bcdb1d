-- ===== src/ThreadPool/Returning.antt =====
-- src/ThreadPool.cc: the joins in `Stop`.
use mathlib.Core.Path.{subst}
use security_transmission_pl.Base.{
  ℕ, zero, suc, ◌≤◌, ◌<◌, ◌≡◌, ◌≢◌, ◌⊎◌, refl, sym, ap, ◌∙◌, true, false, List, [], ◌∷◌, ◌++◌,
  if◌then◌else◌, arith, inl, inr, Bool-cases,
}
use security_transmission_pl.ThreadPool.{
  Worker, at_while, at_lock, at_wait, asleep, at_take, returned, with_task, thread_func, put_task,
  Stop, not_called, joining, stopped, System, new_pool, AllReturned, Step, works, wakes, puts,
  puts_unheard, stops, notifies, joins, Reach, here, next,
}
use security_transmission_pl.ThreadPool.Tasks.{total, total_mid, gone}
use security_transmission_pl.ThreadPool.Locking.{locks, held_by, Step-IsLocked, Reach-IsLocked}
use security_transmission_pl.ThreadPool.Stopping.{
  stuck, turn_stopped, IsQuiet, QuietReach, still, going,
}
use security_transmission_pl.ThreadPool.Ranks.{
  rank, stop_rank, rank_of, counted_at, Goes, turn-Goes, IsStopping, turn_IsStopping,
}

not_both : {s : System} {c : Stop} → IsStopping s → s.stop ≡ c → c ≢ joining → c ≢ stopped → ⊥
not_both v e a b = elim (v.joined) [ inl j ↦ a (sym e ∙ j) | inr j ↦ b (sym e ∙ j) ]

quiet_IsStopping : {s t : System} (step : Step s t) → IsQuiet step → IsStopping s → IsStopping t
quiet_IsStopping {s} {t} (works us w vs w' p e f r) q v =
    let (off, free, _) = turn_IsStopping us w vs w' p e f v in
    let locked = Step-IsLocked {s = s} {u = t} (works us w vs w' p e f r) v.locked in
    record {
      off = ap (λ x. x.pool.running) r ∙ off;
      joined = subst (λ c. (c ≡ joining) ⊎ (c ≡ stopped)) (sym (ap (λ x. x.stop) r)) v.joined;
      free = ap (λ x. total stuck x.threads) r ∙ free;
      locked = locked;
    }
quiet_IsStopping (wakes us vs e r) q v = absurd q
quiet_IsStopping (puts task us vs free e r) q v = absurd q
quiet_IsStopping (puts_unheard task free nobody r) q v = absurd q
quiet_IsStopping (stops c running r) q v = absurd (ground (arith, v.off, running))
quiet_IsStopping (notifies n r) q v =
    absurd (not_both v n (λ e. ground (arith, e)) (λ e. ground (arith, e)))
quiet_IsStopping (joins j all r) q v =
    rw r (record { off = v.off; joined = inr refl; free = v.free; locked = v.locked })

quiet_lower : {s t : System} (step : Step s t) → IsQuiet step → IsStopping s → rank_of t < rank_of s
quiet_lower {s} (works us w vs w' p e f r) q v =
    let (_, _, less) = turn_IsStopping us w vs w' p e f v in omega (arith, less, ap rank_of r)
quiet_lower (wakes us vs e r) q v = absurd q
quiet_lower (puts task us vs free e r) q v = absurd q
quiet_lower (puts_unheard task free nobody r) q v = absurd q
quiet_lower (stops c running r) q v = absurd (ground (arith, v.off, running))
quiet_lower (notifies n r) q v =
    absurd (not_both v n (λ e. ground (arith, e)) (λ e. ground (arith, e)))
quiet_lower {s} (joins j all r) q v = omega (arith, ap rank_of r, ap stop_rank j)

nothing_left : (w : Worker) → stuck w ≡ 0 → rank w ≡ 0 → w ≡ returned
nothing_left (with_task t) f r = absurd (omega (arith, r))
nothing_left at_while f r = absurd (omega (arith, r))
nothing_left at_lock f r = absurd (omega (arith, r))
nothing_left at_wait f r = absurd (omega (arith, f))
nothing_left asleep f r = absurd (omega (arith, f))
nothing_left at_take f r = absurd (omega (arith, r))
nothing_left returned f r = refl

all_returned : (ws : List Worker) → total stuck ws ≡ 0 → total rank ws ≡ 0 → AllReturned ws
all_returned [] f r = tt
all_returned (w ∷ ws) f r = (
  nothing_left w (omega (arith, f)) (omega (arith, r)),
  all_returned ws (omega (arith, f)) (omega (arith, r)),
)

-- A thread that holds the lock and is not stuck is about to take a task.
holder : (w : Worker) → stuck w ≡ 0 → 1 ≤ locks w → w ≡ at_take
holder at_take f l = refl
holder at_wait f l = absurd (omega (arith, f))
holder (with_task t) f l = absurd (omega (arith, l))
holder at_while f l = absurd (omega (arith, l))
holder at_lock f l = absurd (omega (arith, l))
holder asleep f l = absurd (omega (arith, l))
holder returned f l = absurd (omega (arith, l))

abbrev pub CanGo : System → Type 0
CanGo s = (t : System) × (step : Step s t) × IsQuiet step

thread-Goes :
    (s : System) (us : List Worker) (w : Worker) (vs : List Worker)
    → s.threads ≡ us ++ w ∷ vs
    → Goes w s.pool
    → CanGo s
thread-Goes s us w vs e (w', p, f) =
    (record s { pool = p; threads = us ++ w' ∷ vs }, works us w vs w' p e f refl, tt)

held_goes : (s : System) → IsStopping s → s.pool.held ≡ true → CanGo s
held_goes s v held =
    let one : held_by s.pool ≡ 1 = ap {B = ℕ} (λ b. if b then 1 else 0) held in
    let (us, w, vs, e, l) = counted_at locks s.threads (omega (arith, one, v.locked.counted)) in
    let free : stuck w ≡ 0 = omega (arith, v.free, total_mid stuck s.threads us w vs e) in
    let takes = holder w free l in
    thread-Goes s us w vs e (turn-Goes w s.pool v.off (omega (arith, ap rank takes)) (inr takes))

free_goes : (s : System) → IsStopping s → s.pool.held ≡ false → s.stop ≡ joining → CanGo s
free_goes s v free j =
    elim (total rank s.threads) as (λ n. total rank s.threads ≡ n → CanGo s) [
      | zero ↦
          λ e. (record s { stop = stopped }, joins j (all_returned s.threads v.free e) refl, tt)
      | suc n ↦ λ e.
          let (us, w, vs, same, some_left) = counted_at rank s.threads (omega (arith, e)) in
          thread-Goes s us w vs same (turn-Goes w s.pool v.off some_left (inl free))
    ]
      refl

progress : (s : System) → IsStopping s → (s.stop ≡ stopped) ⊎ CanGo s
progress s v = elim (v.joined) [
  | inr done ↦ inl done
  | inl j ↦ inr (elim (Bool-cases s.pool.held) [
    | inl held ↦ held_goes s v held
    | inr free ↦ free_goes s v free j
  ])
]

QuietReach-IsStopping : {s t : System} → QuietReach s t → IsStopping s → IsStopping t
QuietReach-IsStopping still v = v
QuietReach-IsStopping (going run step q) v = quiet_IsStopping step q (QuietReach-IsStopping run v)

-- Once `Stop` was called, the pool does not run.
Step-off :
    {s t : System}
    → Step s t
    → (s.stop ≡ not_called) ⊎ (s.pool.running ≡ false)
    → (t.stop ≡ not_called) ⊎ (t.pool.running ≡ false)
unfolding put_task
Step-off {s} (works us w vs w' p e f r) (inl c) = rw r (inl c)
Step-off {s} (works us w vs w' p e f r) (inr off) =
    rw r (inr (gone _ (thread_func w s.pool) w' p f (turn_stopped w s.pool off)).0)
Step-off (wakes us vs e r) h = rw r h
Step-off (puts task us vs free e r) h = rw r h
Step-off (puts_unheard task free nobody r) h = rw r h
Step-off (stops c running r) h = rw r (inr refl)
Step-off (notifies n r) (inl c) = absurd (ground (arith, n, c))
Step-off (notifies n r) (inr off) = rw r (inr off)
Step-off (joins j all r) (inl c) = absurd (ground (arith, j, c))
Step-off (joins j all r) (inr off) = rw r (inr off)

Reach-off :
    (n : ℕ) {s : System} → Reach (new_pool n) s → (s.stop ≡ not_called) ⊎ (s.pool.running ≡ false)
unfolding new_pool
Reach-off n here = inl refl
Reach-off n (next run step) = Step-off step (Reach-off n run)

-- In any run of any number of threads, when `Stop` has notified and no thread sleeps or is about to:
-- without further calls of `Put` and spurious wake-ups, there is always a next step until `Stop`
-- has returned, and each step lowers a number, so that `Stop` returns whatever the threads do.
pub stop_returns :
    (n : ℕ) {s t : System}
    → Reach (new_pool n) s
    → s.stop ≡ joining
    → total stuck s.threads ≡ 0
    → QuietReach s t
    → ((t.stop ≡ stopped) ⊎ CanGo t)
      × ((u : System) (step : Step t u) → IsQuiet step → rank_of u < rank_of t)
stop_returns n {s} {t} run j free quiet =
    let off : s.pool.running ≡ false = elim (Reach-off n run) [
      | inl c ↦ absurd (ground (arith, c, j))
      | inr o ↦ o
    ] in
    let v : IsStopping t =
      QuietReach-IsStopping quiet
        (record { off = off; joined = inl j; free = free; locked = Reach-IsLocked n run }) in
    (progress t v, λ u. λ step. λ q. quiet_lower step q v)
