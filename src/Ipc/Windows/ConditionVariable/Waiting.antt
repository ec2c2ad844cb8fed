-- ===== src/Ipc/Windows/ConditionVariable/Waiting.antt =====
-- src/ipc/win32/ConditionVariable.cpp: threads that begin to wait, and that stop.
use libazul.Base.{
  update, ℕ, ◌+◌, ◌<◌, ◌≡◌, refl, sym, ap, ◌∙◌, true, false, [], ◌∷◌, ◌++◌, ok, ◌==◌, if◌then◌else◌,
  Bool-cases, inl, inr, arith, dec_lt,
}
use libazul.Ipc.Queue.{ItemEq}
use libazul.Ipc.Queue.Inv.{IsValid, pushed}
use libazul.Ipc.Queue.Refine.{contents}
use libazul.Ipc.Queue.Ends.{last_item, no_item}
use libazul.Ipc.Windows.ConditionVariable.{
  Semaphores, Condition, get_semaphore, after_create, after_semaphore, after_push, notify_one,
  begin_wait, end_wait_for, wait_timeout, timeout,
}
use libazul.Ipc.Windows.ConditionVariable.Notify.{count_of, FrontEnds, notify_one-FrontEnds}

module _ {K : Type 0} (o : Semaphores K) where
  -- The semaphore that the object knows, or creates, is down, if the object knows it or it was down.
  pub record Ready (t : ℕ) (s s' : Condition K) : Type 0 where
    pub queue : s'.queue ≡ s.queue
    pub knows : (u : ℕ) → s.known u ≡ true → s'.known u ≡ true
    pub itself : s'.known t ≡ true
    pub counts : (u : ℕ) → count_of o s' u ≡ (if t == u then 0 else count_of o s u)

  -- A semaphore can be created in every state of the system.
  abbrev pub CanCreate : ℕ → Type 0
  CanCreate t = (k : K) → (k' : K) × (o.create k t ≡ ok k')

  get_semaphore-Ready :
      (t : ℕ) (s : Condition K)
      → CanCreate t
      → (count_of o s t ≡ 1 → s.known t ≡ true)
      → (s' : Condition K) × (get_semaphore o t s ≡ ok s') × Ready t s s'
  unfolding get_semaphore after_create
  get_semaphore-Ready t s can h = elim (Bool-cases (s.known t)) [
    | inl k ↦ (
      record s { kernel = o.try_wait s.kernel t },
      rw k refl,
      record {
        queue = refl;
        knows = λ u m. m;
        itself = k;
        counts = λ u. ground (arith, o.try_wait_law s.kernel t u, o.value_law s.kernel u);
      },
    )
    | inr n ↦
        let (k', e) = can s.kernel in
        (
          record s { kernel = k'; known = update s.known t true },
          rw (n, e) refl,
          record {
            queue = refl;
            knows = λ u m. ground (arith, m);
            itself = ground arith;
            counts = λ u. ground (arith, o.create_law s.kernel k' t u e, zero_there n);
          },
        )
  ]
    where
      zero_there : s.known t ≡ false → count_of o s t ≡ 0
      zero_there n = elim (dec_lt 0 (count_of o s t)) [
        | yes p ↦
            let k : s.known t ≡ true = h (omega (arith, o.value_law s.kernel t)) in absurd (cc)
        | no z ↦ omega (arith)
      ]

  -- What the beginning of a wait has done.
  pub record Waits (t : ℕ) (s s' : Condition K) : Type 0 where
    pub valid : IsValid s'.queue
    pub last : contents s'.queue ≡ contents s.queue ++ t ∷ []
    pub down : count_of o s' t ≡ 0
    pub size : s'.queue.size ≡ s.queue.size
    pub count : s'.queue.count ≡ s.queue.count + 1
    pub knows : (u : ℕ) → s.known u ≡ true → s'.known u ≡ true
    pub itself : s'.known t ≡ true
    pub others : (u : ℕ) → (t == u) ≡ false → count_of o s' u ≡ count_of o s u

  -- A thread that begins to wait on a valid queue with room, and whose semaphore can be created, is
  -- put at the end, and its semaphore is down, if the object knows it or it was down; the other
  -- semaphores are as they were.
  pub begin_wait-Waits :
      (t : ℕ) (s : Condition K)
      → IsValid s.queue
      → s.queue.count < s.queue.size
      → CanCreate t
      → (count_of o s t ≡ 1 → s.known t ≡ true)
      → (s' : Condition K) × (begin_wait o t s ≡ (s', ok tt)) × Waits t s s'
  unfolding begin_wait after_semaphore after_push
  begin_wait-Waits t s v room can known =
      let (s₁, e, r) = get_semaphore-Ready t s can known in
      let (p, v', l) = last_item s.queue t v room in
      (
        record s₁ { queue = pushed s.queue t },
        rw (e, r.queue, p) refl,
        record {
          valid = v';
          last = l;
          down = r.counts t ∙ nothing;
          size = refl;
          count = refl;
          knows = r.knows;
          itself = r.itself;
          others = λ u d. r.counts u ∙ rw d refl;
        },
      )
    where
      nothing : (if t == t then 0 else count_of o s t) ≡ 0
      nothing = ground arith

  -- Thread `a` waits until a time-out, then `b` waits, then comes a notification: `b` sleeps on.
  abbrev pub Stolen : ItemEq ℕ → (a b : ℕ) → Condition K → Type 0
  Stolen e a b s =
      (s₁ : Condition K) × (s₂ : Condition K) × (s₃ : Condition K) × (begin_wait o a s
        ≡ (s₁, ok tt))
      × (end_wait_for o e a wait_timeout s₁ ≡ ok (s₁, ok timeout))
      × (begin_wait o b s₁ ≡ (s₂, ok tt))
      × (notify_one o s₂ ≡ (s₃, ok tt))
      × (count_of o s₃ b ≡ 0)

  -- On a valid queue that is empty and has room for two, with two threads whose semaphores can be
  -- created, and each of which is down or known to the object: a wait of the first that timed out
  -- leaves it in the queue; when the second waits then, the next notification is spent on the first,
  -- and the second is not woken.
  pub timed_out-steals :
      (e : ItemEq ℕ) (a b : ℕ) (s : Condition K)
      → IsValid s.queue
      → contents s.queue ≡ []
      → 1 < s.queue.size
      → (a == b) ≡ false
      → CanCreate a
      → CanCreate b
      → (count_of o s a ≡ 1 → s.known a ≡ true)
      → (count_of o s b ≡ 1 → s.known b ≡ true)
      → Stolen e a b s
  timed_out-steals e a b s v empty room d ca cb ka kb =
      first (begin_wait-Waits a s v (omega (arith, none_waits)) ca ka)
    where
      none_waits : s.queue.count ≡ 0
      none_waits = no_item s.queue empty

      known_to : Condition K → ℕ → Type 0
      known_to s t = s.known t ≡ true

      third :
          (s₁ s₂ : Condition K)
          → begin_wait o a s ≡ (s₁, ok tt)
          → begin_wait o b s₁ ≡ (s₂, ok tt)
          → count_of o s₂ b ≡ 0
          → known_to s₂ a
          → FrontEnds o a (b ∷ []) s₂ (notify_one o s₂)
          → Stolen e a b s
      third s₁ s₂ e₁ e₂ down k (inl (s₃, e₃, w)) =
          (s₁, s₂, s₃, e₁, unfold end_wait_for in refl, e₂, e₃, w.others b d ∙ down)
      third s₁ s₂ e₁ e₂ down k (inr (s₃, x, e₃, w)) =
          let n : s₂.known a ≡ false = w.unknown in let k' : s₂.known a ≡ true = k in absurd (cc)

      second :
          (s₁ : Condition K)
          → begin_wait o a s ≡ (s₁, ok tt)
          → Waits a s s₁
          → ((s₂ : Condition K) × (begin_wait o b s₁ ≡ (s₂, ok tt)) × Waits b s₁ s₂)
          → Stolen e a b s
      second s₁ e₁ w₁ (s₂, e₂, w₂) = third s₁ s₂ e₁ e₂ w₂.down (w₂.knows a w₁.itself) (
          notify_one-FrontEnds o s₂ a (b ∷ []) w₂.valid
            (w₂.last ∙ ap (λ xs. xs ++ b ∷ []) (w₁.last ∙ ap (λ xs. xs ++ a ∷ []) empty)))

      first :
          ((s₁ : Condition K) × (begin_wait o a s ≡ (s₁, ok tt)) × Waits a s s₁) → Stolen e a b s
      first (s₁, e₁, w₁) = second s₁ e₁ w₁ (
          begin_wait-Waits b s₁ w₁.valid (omega (arith, none_waits, w₁.size, w₁.count)) cb
            (λ h. w₁.knows b (kb (sym (w₁.others b d) ∙ h))))
