-- ===== src/Process/Queue.antt =====
-- src/process.c: the linked list from `ready_head` is a queue of distinct processes, and
-- `queue_push` and `queue_pop` work at its two ends.
use cindy_os.Base.{
  ◌≡◌, ◌≢◌, refl, sym, ap, ◌∙◌, subst, some, true, false, List, [], ◌∷◌, ◌++◌, arith, ◌==◌,
  if◌then◌else◌, ok, Returns, returns, ne→==,
}
use cindy_os.Process.{
  Ptr, Process, Procs, Kernel, update, modify, next_of, set_next, queue_push, queue_pop,
}

abbrev pub NotIn : Ptr → List Ptr → Type 0
NotIn p [] = Unit
NotIn p (q ∷ qs) = (p ≢ q) × NotIn p qs

abbrev pub Distinct : List Ptr → Type 0
Distinct [] = Unit
Distinct (q ∷ qs) = NotIn q qs × Distinct qs

abbrev pub last_or : Ptr → List Ptr → Ptr
last_or d [] = d
last_or d (q ∷ qs) = last_or q qs

-- From `p` the `next` pointers lead through the processes `qs` to `NULL`.
abbrev pub Chain : Procs → Ptr → List Ptr → Type 0
Chain procs p [] = p ≡ 0
Chain procs p (q ∷ qs) =
    (p ≡ q) × (q ≢ 0) × ((r : Process) × (procs q ≡ some r) × Chain procs r.next qs)

pub record IsQueue (k : Kernel) (qs : List Ptr) : Type 0 where
  pub chain : Chain k.procs k.ready_head qs
  pub tail : k.ready_tail ≡ last_or 0 qs
  pub distinct : Distinct qs

pub update_self : (procs : Procs) (p : Ptr) (r : Process) → update procs p r p ≡ some r
unfolding update
update_self procs p r = ground arith

pub update_ne : (procs : Procs) (p q : Ptr) (r : Process) → q ≢ p → update procs p r q ≡ procs q
unfolding update
update_ne procs p q r h = ground arith

-- A chain is not disturbed by an update of a process outside it.
pub Chain-update :
    (procs : Procs) (p : Ptr) (r : Process) (a : Ptr) (qs : List Ptr)
    → NotIn p qs
    → Chain procs a qs
    → Chain (update procs p r) a qs
Chain-update procs p r a [] out c = c
Chain-update procs p r a (q ∷ qs) out (e, ne, (t, at, rest)) = (
  e,
  ne,
  (t, update_ne procs p q r (λ h. out.0 (sym h)) ∙ at, Chain-update procs p r t.next qs out.1 rest),
)

NotIn-last : (p q : Ptr) (qs : List Ptr) → NotIn p (q ∷ qs) → p ≢ last_or q qs
NotIn-last p q [] h = h.0
NotIn-last p q (x ∷ qs) h = NotIn-last p x qs h.1

-- The last process of a chain can be followed.
last_process :
    (procs : Procs) (a q : Ptr) (qs : List Ptr)
    → Chain procs a (q ∷ qs)
    → (r : Process) × (procs (last_or q qs) ≡ some r)
last_process procs a q [] (e, ne, (r, at, rest)) = (r, at)
last_process procs a q (x ∷ qs) (e, ne, (r, at, rest)) = last_process procs r.next x qs rest

-- Linking a process behind the last one appends it to the chain.
Chain-link :
    (procs : Procs) (a q : Ptr) (qs : List Ptr) (p : Ptr) (l t : Process)
    → Chain procs a (q ∷ qs)
    → Distinct (q ∷ qs)
    → NotIn p (q ∷ qs)
    → p ≢ 0
    → procs p ≡ some t
    → t.next ≡ 0
    → procs (last_or q qs) ≡ some l
    → Chain (update procs (last_or q qs) (set_next p l)) a (q ∷ qs ++ (p ∷ []))
Chain-link procs a q [] p l t (e, ne, (r, at, rest)) d out p0 here ends last = (
  e,
  ne,
  (
    set_next p l,
    update_self procs q (set_next p l),
    (refl, p0, (t, update_ne procs q p (set_next p l) out.0 ∙ here, ends)),
  ),
)
Chain-link procs a q (x ∷ qs) p l t (e, ne, (r, at, rest)) d out p0 here ends last = (
  e,
  ne,
  (
    r,
    update_ne procs (last_or x qs) q (set_next p l) (NotIn-last q x qs d.0) ∙ at,
    Chain-link procs r.next x qs p l t rest d.1 out.1 p0 here ends last,
  ),
)

NotIn-append : (p q : Ptr) (qs : List Ptr) → NotIn p qs → p ≢ q → NotIn p (qs ++ (q ∷ []))
NotIn-append p q [] h ne = (ne, tt)
NotIn-append p q (x ∷ qs) h ne = (h.0, NotIn-append p q qs h.1 ne)

pub Distinct-append :
    (qs : List Ptr) (p : Ptr) → Distinct qs → NotIn p qs → Distinct (qs ++ (p ∷ []))
Distinct-append [] p d out = (tt, tt)
Distinct-append (q ∷ qs) p d out =
    (NotIn-append q p qs d.0 (λ e. out.0 (sym e)), Distinct-append qs p d.1 out.1)

last_or-append : (d p : Ptr) (qs : List Ptr) → last_or d (qs ++ (p ∷ [])) ≡ p
last_or-append d p [] = refl
last_or-append d p (x ∷ qs) = last_or-append x p qs

pub modify-some :
    (p : Ptr) (f : Process → Process) (k : Kernel) (r : Process)
    → k.procs p ≡ some r
    → modify p f k ≡ ok (record k { procs = update k.procs p (f r) })
unfolding modify
modify-some p f k r e = rw (e, modify)

-- What `queue_push` may change: the list, not the processes' other fields nor the one that runs.
pub record Pushed (p : Ptr) (k : Kernel) (qs : List Ptr) (k' : Kernel) : Type 0 where
  pub queue : IsQueue k' (qs ++ (p ∷ []))
  pub same_curr : k'.curr_proc ≡ k.curr_proc

-- `queue_push` of a process that exists and is not in the queue appends it at the end, and leaves
-- the process that runs.
pub queue_push_lem :
    (p : Ptr) {k : Kernel} (qs : List Ptr) (r : Process)
    → IsQueue k qs
    → p ≢ 0
    → NotIn p qs
    → k.procs p ≡ some r
    → Returns (Pushed p k qs) (queue_push p k)
unfolding queue_push
queue_push_lem p {k} [] r inv p0 out here =
    rw (ne→== p 0 p0, modify-some p (set_next 0) k r here, head_nil)
      (returns (record {
        queue = record {
          chain = (refl, p0, (set_next 0 r, update_self k.procs p (set_next 0 r), refl));
          tail = refl;
          distinct = (tt, tt);
        };
        same_curr = refl;
      }))
  where
    head_nil : (k.ready_head == 0) ≡ true
    head_nil = ground (arith, inv.chain)
queue_push_lem p {k} (q ∷ qs) r inv p0 out here =
    let (l, last) = last_process procs₁ k.ready_head q qs chain₁ in
    rw
      (
        ne→== p 0 p0,
        modify-some p (set_next 0) k r here,
        head_cons,
        modify-some k.ready_tail (set_next p) k₁ l (ap procs₁ inv.tail ∙ last),
      )
      (returns (record {
        queue = record {
          chain =
              subst (λ t. Chain (update procs₁ t (set_next p l)) k.ready_head (q ∷ qs ++ (p ∷ [])))
                (sym inv.tail)
                (Chain-link procs₁ k.ready_head q qs p l (set_next 0 r) chain₁ inv.distinct out p0
                  (update_self k.procs p (set_next 0 r)) refl last);
          tail = sym (last_or-append q p qs);
          distinct = Distinct-append (q ∷ qs) p inv.distinct out;
        };
        same_curr = refl;
      }))
  where
    head_cons : (k.ready_head == 0) ≡ false
    head_cons = ground (arith, inv.chain.0, inv.chain.1)

    procs₁ : Procs
    procs₁ = update k.procs p (set_next 0 r)

    k₁ : Kernel
    k₁ = record k { procs = procs₁ }

    chain₁ : Chain procs₁ k.ready_head (q ∷ qs)
    chain₁ = Chain-update k.procs p (set_next 0 r) k.ready_head (q ∷ qs) out inv.chain

-- What `queue_pop` returns: the first process, unlinked, with the rest of the queue behind it.
pub record Popped (p : Ptr) (k : Kernel) (qs : List Ptr) (k' : Kernel) : Type 0 where
  pub queue : IsQueue k' qs
  pub same_curr : k'.curr_proc ≡ k.curr_proc
  pub popped : Process
  pub was : k.procs p ≡ some popped
  pub is : k'.procs p ≡ some (set_next 0 popped)
  pub others : (q : Ptr) → q ≢ p → k'.procs q ≡ k.procs q

-- The kernel once the head has moved on: the tail is cleared if that was the last process.
moved_on :
    (k : Kernel) (p h : Ptr) (qs : List Ptr)
    → Chain k.procs h qs
    → k.ready_tail ≡ last_or p qs
    → (if h == 0 then record k { ready_head = h; ready_tail = 0 } else record k { ready_head = h })
      ≡ record k { ready_head = h; ready_tail = last_or 0 qs }
moved_on k p h [] c t = ground (arith, c)
moved_on k p h (q ∷ qs) c t = ground (arith, c.0, c.1, t)

-- `queue_pop` of a queue that is not empty returns its first process, unlinked, leaves the others
-- in their order, and changes no process but that one.
pub queue_pop_lem :
    {k : Kernel} (p : Ptr) (qs : List Ptr)
    → IsQueue k (p ∷ qs)
    → Returns (λ (q, k'). (q ≡ p) × Popped p k qs k') (queue_pop k)
unfolding queue_pop next_of
queue_pop_lem {k} p qs inv =
    let (head, p0, (r, at, rest)) = inv.chain in
    rw
      (
        head_cons,
        following r at,
        moved_on k p r.next qs rest inv.tail,
        modify-some k.ready_head (set_next 0)
            (record k { ready_head = r.next; ready_tail = last_or 0 qs }) r (ap k.procs head ∙ at),
      )
      (returns (
        head,
        record {
          queue = record {
            chain =
                subst (λ h. Chain (update k.procs h (set_next 0 r)) r.next qs) (sym head)
                  (Chain-update k.procs p (set_next 0 r) r.next qs inv.distinct.0 rest);
            tail = refl;
            distinct = inv.distinct.1;
          };
          same_curr = refl;
          popped = r;
          was = at;
          is =
              subst (λ h. update k.procs h (set_next 0 r) p ≡ some (set_next 0 r)) (sym head)
                (update_self k.procs p (set_next 0 r));
          others = λ q ne.
              subst (λ h. update k.procs h (set_next 0 r) q ≡ k.procs q) (sym head)
                (update_ne k.procs p q (set_next 0 r) ne);
        },
      ))
  where
    head_cons : (k.ready_head == 0) ≡ false
    head_cons = ground (arith, inv.chain.0, inv.chain.1)

    following : (r : Process) → k.procs p ≡ some r → next_of k.ready_head k ≡ ok r.next
    following r at = rw (ap k.procs inv.chain.0 ∙ at, next_of)

pub queue_pop_nil : {k : Kernel} → IsQueue k [] → queue_pop k ≡ ok (0, k)
unfolding queue_pop
queue_pop_nil {k} inv = ground (arith, inv.chain)
