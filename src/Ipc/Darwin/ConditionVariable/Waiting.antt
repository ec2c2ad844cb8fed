-- ===== src/Ipc/Darwin/ConditionVariable/Waiting.antt =====
-- src/ipc/darwin/ConditionVariable.cpp: threads that begin to wait, and how their waits end.
use libazul.Base.{
  ℕ, zero, suc, ◌+◌, ◌-◌, ◌<◌, ◌≡◌, refl, ◌∙◌, true, false, List, [], ◌∷◌, ◌++◌, map, some, ok,
  throw, ◌==◌, if◌then◌else◌, leb, arith,
}
use libazul.Ipc.Queue.{push_back}
use libazul.Ipc.Queue.Inv.{IsValid, pushed}
use libazul.Ipc.Queue.Refine.{contents}
use libazul.Ipc.Queue.Ends.{last_item}
use libazul.Ipc.Darwin.FiFo.{Pipes, open_failed, create_or_open_fifo, bytes}
use libazul.Ipc.Darwin.ConditionVariable.{
  fifo_error, Condition, timeout, no_timeout, made, pushed_back, begin_wait, end_wait, notify_one,
  wait_loop, waits_still, ended,
}

-- The loop of a wait ends without a time-out once the reads have given the whole message, in
-- however many pieces, and not before.
abbrev pub total : List ℕ → ℕ
total [] = 0
total (n ∷ ns) = n + total ns

pub wait_loop-total :
    (n : ℕ) (ns : List ℕ)
    → wait_loop n (map bytes ns) ≡ (if leb n (total ns) then ended (ok no_timeout) else waits_still)
unfolding wait_loop
wait_loop-total zero ns = ground arith
wait_loop-total (suc n) [] = ground arith
wait_loop-total (suc n) (k ∷ ns) = ground (arith, wait_loop-total (suc n - k) ns)

==-refl : (n : ℕ) → (n == n) ≡ true
==-refl n = ground arith

module _ {K : Type 0} (o : Pipes K) where
  -- What the beginning of a wait has done.
  pub record Waits (t : ℕ) (s s' : Condition K) : Type 0 where
    pub valid : IsValid s'.queue
    pub last : contents s'.queue ≡ contents s.queue ++ t ∷ []
    pub size : s'.queue.size ≡ s.queue.size
    pub count : s'.queue.count ≡ s.queue.count + 1
    pub empty_pipe : o.content s'.kernel t ≡ 0
    pub pipes : (u : ℕ) → o.exists s'.kernel u ≡ (if t == u then true else o.exists s.kernel u)
    pub others : (u : ℕ) → (t == u) ≡ false → o.content s'.kernel u ≡ o.content s.kernel u

  created :
      (t : ℕ) (k k' : K)
      → o.mkfifo t k ≡ some k'
      → o.exists k' t ≡ true
      → create_or_open_fifo o t true k ≡ ok k'
  unfolding create_or_open_fifo
  created t k k' e there = rw (e, o.opens_law t k', there) refl

  -- A thread that has no pipe yet and begins to wait on a valid queue with room is put at the end,
  -- and has a pipe that is empty; the pipes of the others are as they were.
  pub begin_wait-Waits :
      (t : ℕ) (s : Condition K)
      → IsValid s.queue
      → s.queue.count < s.queue.size
      → o.exists s.kernel t ≡ false
      → (s' : Condition K) × (begin_wait o t s ≡ (s', ok tt)) × Waits t s s'
  unfolding begin_wait made pushed_back
  begin_wait-Waits t s v room new = go (o.mkfifo_new t s.kernel new) (last_item s.queue t v room)
    where
      go :
          (k' : K) × (o.mkfifo t s.kernel ≡ some k')
            × ((u : ℕ) → o.exists k' u ≡ (if t == u then true else o.exists s.kernel u))
            × ((u : ℕ) → o.content k' u ≡ (if t == u then 0 else o.content s.kernel u))
          → (push_back s.queue t ≡ ok (pushed s.queue t))
            × IsValid (pushed s.queue t)
            × (contents (pushed s.queue t) ≡ contents s.queue ++ t ∷ [])
          → (s' : Condition K) × (begin_wait o t s ≡ (s', ok tt)) × Waits t s s'
      go (k', e, pipes, content) (push, v', l) = (
        record { queue = pushed s.queue t; kernel = k' },
        rw (created t s.kernel k' e (pipes t ∙ rw (==-refl t) refl), push) refl,
        record {
          valid = v';
          last = l;
          size = refl;
          count = refl;
          empty_pipe = content t ∙ rw (==-refl t) refl;
          pipes = pipes;
          others = λ u d. content u ∙ rw d refl;
        },
      )

  -- Thread `a` waits until a time-out, then `b` waits, then comes a notification: it throws, and
  -- `b` has no message.
  abbrev pub Broken : (a b : ℕ) → Condition K → Type 0
  Broken a b s =
      (s₁ : Condition K) × (s₂ : Condition K) × (s₃ : Condition K) × (s₄ : Condition K)
      × (begin_wait o a s ≡ (s₁, ok tt))
      × (end_wait o a (ok timeout) s₁ ≡ (s₂, ok timeout))
      × (begin_wait o b s₂ ≡ (s₃, ok tt))
      × (notify_one o s₃ ≡ (s₄, throw (fifo_error open_failed)))
      × (o.content s₄.kernel b ≡ 0)
