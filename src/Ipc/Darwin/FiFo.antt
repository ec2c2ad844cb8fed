-- ===== src/Ipc/Darwin/FiFo.antt =====
-- src/ipc/darwin/FiFo.hpp: pipes with a name, one for each thread that waits. The system is a
-- parameter: `K` is the type of its states, and the laws are what the manuals document.
use libazul.Base.{
  ℕ, ◌*◌, ◌≤◌, ◌≡◌, Bool, true, false, List, [], ◌∷◌, Option, none, some, Result, ok, throw, ◌==◌,
  if◌then◌else◌,
}

-- `mkfifo` makes a pipe that is empty, unless one of that name is there. A descriptor that was
-- opened for reading and writing takes a message that is short of the capacity of a pipe by half,
-- or the pipe holds more than that already.
pub record Pipes (K : Type 0) : Type 0 where
  pub exists : K → ℕ → Bool
  pub content : K → ℕ → ℕ
  pub mkfifo : ℕ → K → Option K
  pub opens : ℕ → K → Bool
  pub write : ℕ → ℕ → K → K
  pub remove : ℕ → K → K
  pub mkfifo_there : (t : ℕ) (k : K) → exists k t ≡ true → mkfifo t k ≡ none
  pub mkfifo_new :
      (t : ℕ) (k : K)
      → exists k t ≡ false
      → (k' : K) × (mkfifo t k ≡ some k')
        × ((u : ℕ) → exists k' u ≡ (if t == u then true else exists k u))
        × ((u : ℕ) → content k' u ≡ (if t == u then 0 else content k u))
  pub opens_law : (t : ℕ) (k : K) → opens t k ≡ exists k t
  pub write_exists : (t n : ℕ) (k : K) (u : ℕ) → exists (write t n k) u ≡ exists k u
  pub write_there : (t n : ℕ) (k : K) → n * 2 ≤ 512 → n ≤ content (write t n k) t
  pub write_others :
      (t n : ℕ) (k : K) (u : ℕ) → (t == u) ≡ false → content (write t n k) u ≡ content k u
  pub write_more : (t n : ℕ) (k : K) (u : ℕ) → content k u ≤ content (write t n k) u
  pub remove_exists :
      (t : ℕ) (k : K) (u : ℕ) → exists (remove t k) u ≡ (if t == u then false else exists k u)
  pub remove_others :
      (t : ℕ) (k : K) (u : ℕ) → (t == u) ≡ false → content (remove t k) u ≡ content k u

pub data FifoError : Type 0 where
  mkfifo_failed open_failed : FifoError
  poll_failed read_failed : ℕ → FifoError

module _ {K : Type 0} (o : Pipes K) where
  open_fifo : ℕ → K → Result FifoError K
  open_fifo t k = if o.opens t k then ok k else throw open_failed

  made_fifo : ℕ → Option K → Result FifoError K
  unfolding open_fifo
  made_fifo t none = throw mkfifo_failed
  made_fifo t (some k) = open_fifo t k

  -- `CreateOrOpenFiFo`
  unfoldable pub create_or_open_fifo : ℕ → (is_owner : Bool) → K → Result FifoError K
  unfolding made_fifo open_fifo
  create_or_open_fifo t is_owner k = if is_owner then made_fifo t (o.mkfifo t k) else open_fifo t k

  -- What the disposer does.
  unfoldable pub dispose_fifo : ℕ → (is_owner : Bool) → K → K
  dispose_fifo t is_owner k = if is_owner then o.remove t k else k

-- What `poll` returns: nothing yet, an error, or that there are bytes.
pub data Poll : Type 0 where
  nothing_yet readable : Poll
  failed_poll : ℕ → Poll

-- How a read ends, if it ends.
pub data ReadEnd : Type 0 where
  waits timed_out : ReadEnd
  bytes : ℕ → ReadEnd
  throws : FifoError → ReadEnd

abbrev read_answer : Result ℕ ℕ → ReadEnd
read_answer (ok n) = bytes n
read_answer (throw errno) = throws (read_failed errno)

-- `Read`: it polls until there are bytes.
unfoldable pub read : List Poll → Result ℕ ℕ → ReadEnd
read [] r = waits
read (nothing_yet ∷ ps) r = read ps r
read (failed_poll errno ∷ ps) r = throws (poll_failed errno)
read (readable ∷ ps) r = read_answer r

-- `TimedRead`: one poll that may time out, then `Read`.
unfoldable pub timed_read : Poll → List Poll → Result ℕ ℕ → ReadEnd
timed_read nothing_yet ps r = timed_out
timed_read (failed_poll errno) ps r = throws (poll_failed errno)
timed_read readable ps r = read ps r
