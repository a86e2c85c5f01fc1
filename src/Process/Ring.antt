-- ===== src/Process/Ring.antt =====
-- src/process.c: the running process and the ready queue as one ring, which `proc_yield` rotates.
use cindy_os.Base.{
  ℕ, zero, suc, ◌≡◌, ◌≢◌, refl, sym, ap, ◌∙◌, subst, some, true, List, [], ◌∷◌, ◌++◌, arith, ◌==◌,
  if◌then◌else◌, Run, ok, ◌>>=◌, Returns, returns, Returns-bind, Returns-mono, ne→==, length,
}
use mathlib.Core.List.{append-nil, append_assoc}
use cindy_os.Process.{
  Ptr, Process, proc_ready, proc_running, Kernel, update, modify, set_state, set_next, queue_push,
  queue_pop, proc_enqueue, proc_dequeue, proc_yield, schedule, is_running,
}
use cindy_os.Process.Queue.{
  NotIn, IsQueue, Chain-update, update_self, modify-some, Pushed, queue_push_lem, Popped,
  queue_pop_lem, queue_pop_nil,
}

-- The process that runs comes first, then those that are ready, in their order.
abbrev pub IsRing : Kernel → List Ptr → Type 0
IsRing k [] = (k.curr_proc ≡ 0) × IsQueue k []
IsRing k (c ∷ ps) =
    (k.curr_proc ≡ c)
    × (c ≢ 0)
    × NotIn c ps
    × ((r : Process) × (k.procs c ≡ some r) × (r.state ≡ proc_running))
    × IsQueue k ps

unfoldable pub rotate : List Ptr → List Ptr
rotate [] = []
rotate (c ∷ ps) = ps ++ (c ∷ [])

-- A change of a process outside the queue.
pub IsQueue-update :
    {k : Kernel} (p : Ptr) (r : Process) (qs : List Ptr)
    → NotIn p qs
    → IsQueue k qs
    → IsQueue (record k { procs = update k.procs p r }) qs
IsQueue-update {k} p r qs out inv = record {
  chain = Chain-update k.procs p r k.ready_head qs out inv.chain;
  tail = inv.tail;
  distinct = inv.distinct;
}

-- The common end of `proc_yield`, `proc_dequeue` and `schedule`: the first process of the queue is
-- taken out, marked running and made the current one.
resume : Kernel → Run Kernel
resume k = do
  (next, k₁) ← queue_pop k
  if next == 0
      then ok (record k₁ { curr_proc = 0 })
      else (do k₂ ← modify next (set_state proc_running) k₁; ok (record k₂ { curr_proc = next }))

-- The first process of the queue, popped, marked running and made current.
popped-IsRing :
    {k k₁ : Kernel} (p : Ptr) (qs : List Ptr)
    → p ≢ 0
    → IsQueue k (p ∷ qs)
    → (pop : Popped p k qs k₁)
    → IsRing
        (record k₁ {
          procs = update k₁.procs p (set_state proc_running (set_next 0 pop.popped));
          curr_proc = p;
        })
        (p ∷ qs)
popped-IsRing {k₁} p qs p0 inv pop = (
  refl,
  p0,
  inv.distinct.0,
  (
    set_state proc_running (set_next 0 pop.popped),
    update_self k₁.procs p (set_state proc_running (set_next 0 pop.popped)),
    refl,
  ),
  record {
    chain =
        Chain-update k₁.procs p (set_state proc_running (set_next 0 pop.popped)) k₁.ready_head qs
          inv.distinct.0 pop.queue.chain;
    tail = pop.queue.tail;
    distinct = pop.queue.distinct;
  },
)

resume-IsRing :
    {k : Kernel} (p : Ptr) (qs : List Ptr)
    → IsQueue k (p ∷ qs)
    → Returns (λ k'. IsRing k' (p ∷ qs)) (resume k)
unfolding resume
resume-IsRing {k} p qs inv = Returns-bind (queue_pop_lem p qs inv) λ (next, k₁) (e, pop).
    rw
      (
        e,
        ne→== p 0 inv.chain.1,
        modify-some p (set_state proc_running) k₁ (set_next 0 pop.popped) pop.is,
      )
      (returns (popped-IsRing p qs inv.chain.1 inv pop))

-- `proc_dequeue` makes the first ready process the running one and returns it.
pub proc_dequeue_lem :
    {k : Kernel} (p : Ptr) (qs : List Ptr)
    → IsQueue k (p ∷ qs)
    → Returns (λ (q, k'). (q ≡ p) × IsRing k' (p ∷ qs)) (proc_dequeue k)
unfolding proc_dequeue
proc_dequeue_lem {k} p qs inv = Returns-bind (queue_pop_lem p qs inv) λ (next, k₁) (e, pop).
    rw
      (
        e,
        ne→== p 0 inv.chain.1,
        modify-some p (set_state proc_running) k₁ (set_next 0 pop.popped) pop.is,
      )
      (returns (refl, popped-IsRing p qs inv.chain.1 inv pop))

-- With nothing ready `proc_dequeue` returns `NULL` and changes nothing.
pub proc_dequeue_nil : {k : Kernel} → IsQueue k [] → proc_dequeue k ≡ ok (0, k)
unfolding proc_dequeue
proc_dequeue_nil inv = rw (queue_pop_nil inv)

-- `proc_enqueue` appends a process that is not in the queue.
pub proc_enqueue_lem :
    (p : Ptr) {k : Kernel} (qs : List Ptr) (r : Process)
    → IsQueue k qs
    → p ≢ 0
    → NotIn p qs
    → k.procs p ≡ some r
    → Returns (Pushed p k qs) (proc_enqueue p k)
unfolding proc_enqueue
proc_enqueue_lem p {k} qs r inv p0 out here =
    rw (ne→== p 0 p0, modify-some p (set_state proc_ready) k r here)
      (Returns-mono
        (queue_push_lem p qs (set_state proc_ready r)
          (IsQueue-update p (set_state proc_ready r) qs out inv) p0 out
          (update_self k.procs p (set_state proc_ready r)))
        λ k' pushed. record { queue = pushed.queue; same_curr = pushed.same_curr })

-- A list with one more at its end has a first element.
first_of_append :
    (c : Ptr) (ps : List Ptr) → (p : Ptr) × (qs : List Ptr) × (ps ++ (c ∷ []) ≡ p ∷ qs)
first_of_append c [] = (c, [], refl)
first_of_append c (p ∷ ps) = (p, ps ++ (c ∷ []), refl)

resume_rotated :
    {k : Kernel} (c : Ptr) (ps : List Ptr)
    → IsQueue k (ps ++ (c ∷ []))
    → Returns (λ k'. IsRing k' (ps ++ (c ∷ []))) (resume k)
resume_rotated c ps inv =
    let (p, qs, e) = first_of_append c ps in rw e (resume-IsRing p qs (rw e at inv))

-- Without processes nothing changes at all.
abbrev pub Idle : List Ptr → Kernel → Kernel → Type 0
Idle [] k k' = k' ≡ k
Idle (c ∷ ps) k k' = Unit

-- `proc_yield` rotates the ring: the running process goes to the end of the queue, and the first
-- ready one, marked running, takes its place; of an empty ring, the whole state stays as it was.
pub proc_yield-rotate :
    (k : Kernel) (ring : List Ptr)
    → IsRing k ring
    → Returns (λ k'. IsRing k' (rotate ring) × Idle ring k k') (proc_yield k)
unfolding proc_yield rotate resume
proc_yield-rotate k [] v = rw (idle (k.curr_proc) v.0) (returns (v, refl))
  where
    idle : (c : Ptr) → c ≡ 0 → (c == 0) ≡ true
    idle c h = ground arith
proc_yield-rotate k (c ∷ ps) (curr, c0, out, (r, here, run), q) =
    rw
      (
        ne→== k.curr_proc 0 (λ e. c0 (sym curr ∙ e)),
        modify-some k.curr_proc (set_state proc_ready) k r (ap k.procs curr ∙ here),
      )
      (Returns-bind pushed
        λ k₂ pushed. Returns-mono (resume_rotated c ps pushed.queue) λ k' ring. (ring, tt))
  where
    ready : Kernel
    ready = record k { procs = update k.procs k.curr_proc (set_state proc_ready r) }

    out' : NotIn k.curr_proc ps
    out' = subst (λ p. NotIn p ps) (sym curr) out

    pushed : Returns (Pushed c ready ps) (queue_push k.curr_proc ready)
    pushed =
        subst (λ p. Returns (Pushed p ready ps) (queue_push k.curr_proc ready)) curr
          (queue_push_lem k.curr_proc ps (set_state proc_ready r)
            (IsQueue-update k.curr_proc (set_state proc_ready r) ps out' q) (λ e. c0 (sym curr ∙ e))
            out' (update_self k.procs k.curr_proc (set_state proc_ready r)))

pub yield_times : ℕ → Kernel → Run Kernel
yield_times zero k = ok k
yield_times (suc n) k = proc_yield k >>= yield_times n

rotate_times : ℕ → List Ptr → List Ptr
rotate_times zero ring = ring
rotate_times (suc n) ring = rotate_times n (rotate ring)

yield_times-rotate :
    (n : ℕ) (k : Kernel) (ring : List Ptr)
    → IsRing k ring
    → Returns (λ k'. IsRing k' (rotate_times n ring)) (yield_times n k)
unfolding yield_times rotate_times
yield_times-rotate zero k ring v = returns v
yield_times-rotate (suc n) k ring v =
    Returns-bind (proc_yield-rotate k ring v)
      λ k' (v', idle). yield_times-rotate n k' (rotate ring) v'

rotate_times-append : (ps qs : List Ptr) → rotate_times (length ps) (ps ++ qs) ≡ qs ++ ps
unfolding rotate_times rotate
rotate_times-append [] qs = sym (append-nil qs)
rotate_times-append (p ∷ ps) qs =
    ap (rotate_times (length ps)) (append_assoc ps qs (p ∷ []))
    ∙ rotate_times-append ps (qs ++ (p ∷ []))
    ∙ append_assoc qs (p ∷ []) ps

-- No starvation: a process with `n` others before it in the ring runs after `n` yields, and the
-- ring then continues with those behind it and those before it.
pub yield_times_reaches :
    (k : Kernel) (before after : List Ptr) (p : Ptr)
    → IsRing k (before ++ (p ∷ after))
    → Returns
        (λ k'. (k'.curr_proc ≡ p) × IsRing k' (p ∷ after ++ before))
        (yield_times (length before) k)
yield_times_reaches k before after p v =
    Returns-mono (yield_times-rotate (length before) k (before ++ (p ∷ after)) v)
      λ k' v'. let ring = rw (rotate_times-append before (p ∷ after)) at v' in (ring.0, ring)

-- `schedule` with a running process hands over to the next in the ring, like `proc_yield`, and
-- returns the process that it resumes.
pub schedule-rotate :
    {k : Kernel} (c : Ptr) (ps : List Ptr)
    → IsRing k (c ∷ ps)
    → Returns (λ (p, k'). (p ≡ k'.curr_proc) × IsRing k' (rotate (c ∷ ps))) (schedule k)
unfolding schedule rotate
schedule-rotate {k} c ps (curr, c0, out, (r, here, run), q) =
    rw (ne→== k.curr_proc 0 (λ e. c0 (sym curr ∙ e)), ap k.procs curr ∙ here, ap is_running run)
      (Returns-bind pushed λ k₂ pushed.
        let (p, qs, e) = first_of_append c ps in
        Returns-mono (proc_dequeue_lem p qs (rw e at pushed.queue))
          λ (n, k') (same, ring). (same ∙ sym ring.0, rw e ring))
  where
    pushed : Returns (Pushed c k ps) (proc_enqueue k.curr_proc k)
    pushed =
        subst (λ p. Returns (Pushed c k ps) (proc_enqueue p k)) (sym curr)
          (proc_enqueue_lem c ps r q c0 out here)
