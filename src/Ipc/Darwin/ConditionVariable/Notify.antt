-- ===== src/Ipc/Darwin/ConditionVariable/Notify.antt =====
-- src/ipc/darwin/ConditionVariable.cpp: whom the notifications wake, and where they throw.
use libazul.Base.{
  All, ℕ, zero, suc, ◌+◌, ◌≤◌, ◌<◌, ◌≡◌, refl, ◌∙◌, true, false, List, [], ◌∷◌, ok, throw, ltb,
  lt→ltb, ◌==◌, length, length-slots, arith,
}
use libazul.Ipc.Queue.Inv.{IsValid, popped}
use libazul.Ipc.Queue.Refine.{contents, cell}
use libazul.Ipc.Queue.Ends.{first_item, no_item}
use libazul.Ipc.Darwin.FiFo.{Pipes, open_failed, create_or_open_fifo, dispose_fifo}
use libazul.Ipc.Darwin.ConditionVariable.{
  fifo_error, Condition, message_size, written, wake, popped_next, front_next, notify_front,
  notify_one, notify_rounds, notify_all,
}

module _ {K : Type 0} (o : Pipes K) where
  -- The thread has a message in its pipe.
  abbrev pub HasMessage : Condition K → ℕ → Type 0
  HasMessage s t = message_size ≤ o.content s.kernel t

  -- Each of the threads has a pipe.
  abbrev pub HavePipes : Condition K → List ℕ → Type 0
  HavePipes s ts = All (λ t. o.exists s.kernel t ≡ true) ts

  -- What waking one thread has done: it has a message, and the queue holds the waiters that are
  -- left; the pipes are those that were there, and what was in them still is.
  pub record Woken (t : ℕ) (ts : List ℕ) (s s' : Condition K) : Type 0 where
    pub valid : IsValid s'.queue
    pub left : contents s'.queue ≡ ts
    pub message : HasMessage s' t
    pub others : (u : ℕ) → (t == u) ≡ false → o.content s'.kernel u ≡ o.content s.kernel u
    pub more : (u : ℕ) → o.content s.kernel u ≤ o.content s'.kernel u
    pub pipes : (u : ℕ) → o.exists s'.kernel u ≡ o.exists s.kernel u

  wake_lem :
      (t : ℕ) (s : Condition K)
      → o.exists s.kernel t ≡ true
      → wake o t s ≡ (record s { kernel = o.write t message_size s.kernel }, ok tt)
  unfolding wake written create_or_open_fifo dispose_fifo
  wake_lem t s e = rw (o.opens_law t s.kernel, e) refl

  no_pipe :
      (t : ℕ) (s : Condition K)
      → o.exists s.kernel t ≡ false
      → wake o t s ≡ (s, throw (fifo_error open_failed))
  unfolding wake written create_or_open_fifo
  no_pipe t s e = rw (o.opens_law t s.kernel, e) refl

  abbrev pub popped_state : Condition K → Condition K
  popped_state s = record s { queue = popped s.queue }

  notify_front-wake :
      (s : Condition K) (t : ℕ) (ts : List ℕ)
      → IsValid s.queue
      → contents s.queue ≡ t ∷ ts
      → (ltb 0 s.queue.count ≡ true)
        × (notify_front o s ≡ wake o t (popped_state s))
        × IsValid (popped s.queue)
        × (contents (popped s.queue) ≡ ts)
  unfolding notify_front front_next popped_next
  notify_front-wake s t ts v h =
      let (some_item, f, p, v', rest, n) = first_item s.queue t ts v h in
      (lt→ltb 0 s.queue.count some_item, rw (f, p) refl, v', rest)

  woken :
      (s : Condition K) (t : ℕ) (ts : List ℕ)
      → IsValid (popped s.queue)
      → contents (popped s.queue) ≡ ts
      → Woken t ts s (record (popped_state s) { kernel = o.write t message_size s.kernel })
  woken s t ts v h = record {
    valid = v;
    left = h;
    message = o.write_there t message_size s.kernel (omega arith);
    others = o.write_others t message_size s.kernel;
    more = o.write_more t message_size s.kernel;
    pipes = o.write_exists t message_size s.kernel;
  }

  -- `NotifyOne` on a valid queue takes off the thread that waits longest and gives it a message, if
  -- that thread has a pipe.
  pub notify_one-Woken :
      (s : Condition K) (t : ℕ) (ts : List ℕ)
      → IsValid s.queue
      → contents s.queue ≡ t ∷ ts
      → o.exists s.kernel t ≡ true
      → (s' : Condition K) × (notify_one o s ≡ (s', ok tt)) × Woken t ts s s'
  unfolding notify_one
  notify_one-Woken s t ts v h e =
      let (some_item, step, v', rest) = notify_front-wake s t ts v h in
      (_, rw (some_item, step) (wake_lem t (popped_state s) e), woken s t ts v' rest)

  -- Where it has none, the thread is taken off and the call throws; nobody gets a message.
  pub notify_one-throws :
      (s : Condition K) (t : ℕ) (ts : List ℕ)
      → IsValid s.queue
      → contents s.queue ≡ t ∷ ts
      → o.exists s.kernel t ≡ false
      → (s' : Condition K) × (notify_one o s ≡ (s', throw (fifo_error open_failed)))
        × (contents s'.queue ≡ ts)
        × (s'.kernel ≡ s.kernel)
  unfolding notify_one
  notify_one-throws s t ts v h e =
      let (some_item, step, v', rest) = notify_front-wake s t ts v h in
      (popped_state s, rw (some_item, step) (no_pipe t (popped_state s) e), rest, refl)

  pipes_left :
      (ts : List ℕ) (s s' : Condition K)
      → ((u : ℕ) → o.exists s'.kernel u ≡ o.exists s.kernel u)
      → HavePipes s ts
      → HavePipes s' ts
  pipes_left [] s s' k h = tt
  pipes_left (t ∷ ts) s s' k (h, hs) = (k t ∙ h, pipes_left ts s s' k hs)

  notify_rounds_lem :
      (n : ℕ) (s : Condition K) (ts : List ℕ)
      → IsValid s.queue
      → contents s.queue ≡ ts
      → length ts < n
      → HavePipes s ts
      → (s' : Condition K) × (notify_rounds o n s ≡ (s', ok tt))
        × (contents s'.queue ≡ [])
        × All (HasMessage s') ts
        × ((u : ℕ) → o.content s.kernel u ≤ o.content s'.kernel u)
  unfolding notify_rounds
  notify_rounds_lem zero s ts v h l p = absurd (omega (arith, l))
  notify_rounds_lem (suc n) s [] v h l p =
      let closed : ltb 0 s.queue.count ≡ false = ground (arith, no_item s.queue h) in
      (s, rw closed refl, h, tt, λ u. omega arith)
  notify_rounds_lem (suc n) s (t ∷ ts) v h l (p, ps) =
      let (some_item, step, v', rest) = notify_front-wake s t ts v h in
      let w = woken s t ts v' rest in
      go some_item (step ∙ wake_lem t (popped_state s) p) w
        (notify_rounds_lem n s₁ ts w.valid w.left (omega arith) (pipes_left ts s s₁ w.pipes ps))
    where
      s₁ : Condition K
      s₁ = record (popped_state s) { kernel = o.write t message_size s.kernel }

      go :
          ltb 0 s.queue.count ≡ true
          → notify_front o s ≡ (s₁, ok tt)
          → Woken t ts s s₁
          → ((s' : Condition K) × (notify_rounds o n s₁ ≡ (s', ok tt))
              × (contents s'.queue ≡ [])
              × All (HasMessage s') ts
              × ((u : ℕ) → o.content s₁.kernel u ≤ o.content s'.kernel u))
          → (s' : Condition K) × (notify_rounds o (suc n) s ≡ (s', ok tt))
            × (contents s'.queue ≡ [])
            × All (HasMessage s') (t ∷ ts)
            × ((u : ℕ) → o.content s.kernel u ≤ o.content s'.kernel u)
      go some_item e w (s', e', empty, have, grow) = (
        s',
        rw (some_item, e) e',
        empty,
        (omega (arith, grow t, w.message), have),
        λ u. omega (arith, grow u, w.more u),
      )

  -- `NotifyAll` on a valid queue ends, gives a message to every thread that waits and leaves the
  -- queue empty, if each of these threads has a pipe.
  pub notify_all-messages :
      (s : Condition K)
      → IsValid s.queue
      → HavePipes s (contents s.queue)
      → (s' : Condition K) × (notify_all o s ≡ (s', ok tt))
        × (contents s'.queue ≡ [])
        × All (HasMessage s') (contents s.queue)
  unfolding notify_all
  notify_all-messages s v p =
      let (s', e, empty, have, _) =
        notify_rounds_lem (s.queue.count + 1) s (contents s.queue) v refl
          (omega (arith, length-slots (cell s.queue) s.queue.read_position s.queue.count)) p in
      (s', e, empty, have)
