-- ===== src/Ipc/Windows/ConditionVariable/Notify.antt =====
-- src/ipc/win32/ConditionVariable.cpp: whom the notifications wake, and whom they lose.
use libazul.Base.{
  All, ℕ, ◌≡◌, ◌⊎◌, refl, ap, ◌∙◌, true, false, List, [], ◌∷◌, ◌++◌, Result, ok, throw, ◌>>=◌, ltb,
  lt→ltb, ◌==◌, if◌then◌else◌, Bool-cases, inl, inr, arith,
}
use libazul.Ipc.Queue.Inv.{IsValid, popped}
use libazul.Ipc.Queue.Refine.{contents}
use libazul.Ipc.Queue.Ends.{first_item}
use libazul.Ipc.Windows.ConditionVariable.{
  Semaphores, Condition, Ran, create_semaphore_failed, get_semaphore, after_create, or_leave, wake,
  after_pop, notify_front, notify_one,
}

module _ {K : Type 0} (o : Semaphores K) where
  abbrev pub count_of : Condition K → ℕ → ℕ
  count_of s t = o.value s.kernel t

  -- What waking one thread has done: its semaphore is up, the others are as they were, and the
  -- queue holds the waiters that are left.
  pub record Woken (t : ℕ) (ts : List ℕ) (s s' : Condition K) : Type 0 where
    pub valid : IsValid s'.queue
    pub left : contents s'.queue ≡ ts
    pub up : count_of s' t ≡ 1
    pub others : (u : ℕ) → (t == u) ≡ false → count_of s' u ≡ count_of s u
    pub knows : (u : ℕ) → s.known u ≡ true → s'.known u ≡ true

  -- A thread that is off the queue and not woken, since its semaphore cannot be created.
  pub record Lost (t : ℕ) (ts : List ℕ) (s s' : Condition K) (error : ℕ) : Type 0 where
    pub valid : IsValid s'.queue
    pub left : contents s'.queue ≡ ts
    pub unknown : s.known t ≡ false
    pub failed : o.create s.kernel t ≡ throw error
    pub kernel : s'.kernel ≡ s.kernel

  -- How the notification of `t`, the first of the queue, ends.
  abbrev pub FrontEnds : ℕ → List ℕ → Condition K → Ran K → Type 0
  FrontEnds t ts s r =
      ((s' : Condition K) × (r ≡ (s', ok tt)) × Woken t ts s s')
      ⊎ ((s' : Condition K) × (e : ℕ) × (r ≡ (s', throw (create_semaphore_failed e)))
          × Lost t ts s s' e)

  itself : (t x : ℕ) → (if t == t then 1 else x) ≡ 1
  itself t x = ground arith

  module _ (t : ℕ) (ts : List ℕ) (s : Condition K) (v : IsValid s.queue)
      (l : contents s.queue ≡ ts) where
    created :
        (r : Result ℕ K)
        → o.create s.kernel t ≡ r
        → s.known t ≡ false
        → FrontEnds t ts s (
            or_leave o s
              (do s' ← after_create o t s r; ok (record s' { kernel = o.release s'.kernel t })))
    unfolding after_create
    created (ok k) e n = inl (
      _,
      refl,
      record {
        valid = v;
        left = l;
        up = o.release_law k t t ∙ itself t (o.value k t);
        others = λ u d. o.release_law k t u ∙ rw d (o.create_law s.kernel k t u e);
        knows = λ u h. ground (arith, h);
      },
    )
    created (throw x) e n =
        inr (s, x, refl, record { valid = v; left = l; unknown = n; failed = e; kernel = refl })

    wake-FrontEnds : FrontEnds t ts s (wake o t s)
    unfolding wake get_semaphore
    wake-FrontEnds = elim (Bool-cases (s.known t)) [
      | inl k ↦ rw k (
          inl (
            _,
            refl,
            record {
              valid = v;
              left = l;
              up =
                  o.release_law (o.try_wait s.kernel t) t t
                  ∙ itself t (o.value (o.try_wait s.kernel t) t);
              others = λ u d.
                  o.release_law (o.try_wait s.kernel t) t u
                  ∙ rw d (o.try_wait_law s.kernel t u ∙ rw d refl);
              knows = λ u h. h;
            },
          ))
      | inr n ↦ rw n (created (o.create s.kernel t) refl n)
    ]

  -- Only the queue is another one.
  FrontEnds-queue :
      (t : ℕ) (ts : List ℕ) (s s₁ : Condition K) (r : Ran K)
      → s₁.known ≡ s.known
      → s₁.kernel ≡ s.kernel
      → FrontEnds t ts s₁ r
      → FrontEnds t ts s r
  FrontEnds-queue t ts s s₁ r e f (inl (s', h, w)) = inl (
    s',
    h,
    record {
      valid = w.valid;
      left = w.left;
      up = w.up;
      others = λ u d. w.others u d ∙ ap (λ k. o.value k u) f;
      knows = λ u k. w.knows u (rw e k);
    },
  )
  FrontEnds-queue t ts s s₁ r e f (inr (s', x, h, w)) = inr (
    s',
    x,
    h,
    record {
      valid = w.valid;
      left = w.left;
      unknown = rw e at w.unknown;
      failed = rw f at w.failed;
      kernel = w.kernel ∙ f;
    },
  )

  -- A queue that is not empty: the front is taken off the queue, and woken or lost.
  notify_front_lem :
      (s : Condition K) (t : ℕ) (ts : List ℕ)
      → IsValid s.queue
      → contents s.queue ≡ t ∷ ts
      → (ltb 0 s.queue.count ≡ true) × FrontEnds t ts s (notify_front o s)
  unfolding notify_front after_pop
  notify_front_lem s t ts v h =
      let (some_item, f, p, v', rest, n) = first_item s.queue t ts v h in
      (
        lt→ltb 0 s.queue.count some_item,
        rw (f, p)
            (FrontEnds-queue t ts s (record s { queue = popped s.queue })
              (wake o t (record s { queue = popped s.queue })) refl refl
              (wake-FrontEnds t ts (record s { queue = popped s.queue }) v' rest)),
      )

  -- `NotifyOne` on a valid queue takes the thread that waits longest off the queue, and wakes it, or
  -- loses it.
  pub notify_one-FrontEnds :
      (s : Condition K) (t : ℕ) (ts : List ℕ)
      → IsValid s.queue
      → contents s.queue ≡ t ∷ ts
      → FrontEnds t ts s (notify_one o s)
  unfolding notify_one
  notify_one-FrontEnds s t ts v h =
      let (some_item, r) = notify_front_lem s t ts v h in rw some_item r

  -- The semaphores of the threads are up.
  abbrev pub AllUp : Condition K → List ℕ → Type 0
  AllUp s ts = All (λ t. count_of s t ≡ 1) ts

  -- Every thread was woken.
  abbrev pub AllWoken : List ℕ → Condition K → Ran K → Type 0
  AllWoken ts s r = (s' : Condition K) × (r ≡ (s', ok tt)) × (contents s'.queue ≡ []) × AllUp s' ts

  -- The threads `xs` were woken, then the semaphore of `t`, which the object did not know, could not
  -- be created; the queue holds the threads after it.
  abbrev pub OneLost : List ℕ → Condition K → Ran K → Type 0
  OneLost ts s r =
      (s' : Condition K) × (xs : List ℕ) × (t : ℕ) × (ys : List ℕ) × (e : ℕ) × (ts ≡ xs ++ t ∷ ys)
      × (r ≡ (s', throw (create_semaphore_failed e)))
      × (contents s'.queue ≡ ys)
      × AllUp s' xs
      × (s.known t ≡ false)

  -- The semaphores that were up are up.
  abbrev StillUp : Condition K → Ran K → Type 0
  StillUp s (s', r) = (u : ℕ) → count_of s u ≡ 1 → count_of s' u ≡ 1

  abbrev RoundsEnd : List ℕ → Condition K → Ran K → Type 0
  RoundsEnd ts s r = (AllWoken ts s r ⊎ OneLost ts s r) × StillUp s r
