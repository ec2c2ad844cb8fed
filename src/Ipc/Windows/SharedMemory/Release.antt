-- ===== src/Ipc/Windows/SharedMemory/Release.antt =====
-- src/ipc/win32/SharedMemory.cpp: what is left over of an object.
use libazul.Base.{
  All, ◌<◌, ℕ, ◌+◌, ◌*◌, ◌≡◌, refl, Bool, true, false, List, [], ◌∷◌, ◌++◌, none, some, ok, throw,
  ◌==◌, if◌then◌else◌, mod32, arith,
}
use libazul.Utils.Disposer.{destroy}
use libazul.Ipc.Windows.SharedMemory.{
  Answer, System, SystemCall, create_file_mapping, open_file_mapping, map_view_of_file,
  close_handle, SharedMemory, Ran, construct, release, after_map, after_handle, size_high, size_low,
}

-- The handles that are open, and the views that are mapped.
pub record Resources : Type 0 where
  pub handles : List ℕ
  pub views : List ℕ

abbrev remove_first : ℕ → List ℕ → List ℕ
remove_first x [] = []
remove_first x (y ∷ ys) = if x == y then ys else y ∷ remove_first x ys

abbrev pub effect : SystemCall → Resources → Resources
effect (create_file_mapping high low none) w = w
effect (create_file_mapping high low (some h)) w = record w { handles = h ∷ w.handles }
effect (open_file_mapping none) w = w
effect (open_file_mapping (some h)) w = record w { handles = h ∷ w.handles }
effect (map_view_of_file h n none) w = w
effect (map_view_of_file h n (some a)) w = record w { views = a ∷ w.views }
effect (close_handle h) w = record w { handles = remove_first h w.handles }

abbrev pub after : List SystemCall → Resources → Resources
after [] w = w
after (c ∷ cs) w = after cs (effect c w)

-- The calls of an object's whole life, which ends at once where the constructor throws.
abbrev pub life : Ran SharedMemory → List SystemCall
life (calls, ok m) = calls ++ release m
life (calls, throw x) = calls

-- The view of an object that was constructed.
abbrev pub left_over : Ran SharedMemory → List ℕ → List ℕ
left_over (calls, ok m) views = m.address ∷ views
left_over (calls, throw x) views = views

==-refl : (n : ℕ) → (n == n) ≡ true
==-refl n = ground arith

-- What is left of the resources.
abbrev pub leaked : Ran SharedMemory → Resources → Resources
leaked r w = record { handles = w.handles; views = left_over r w.views }

life-leaked :
    (size : ℕ) (b : Bool) (maps creates opens : Answer) (w : Resources) (s : System)
    → s.creates ≡ creates
    → s.opens ≡ opens
    → s.maps ≡ maps
    → after (life (construct size b s)) w ≡ leaked (construct size b s) w
unfolding construct after_handle after_map release destroy
life-leaked size true (ok a) (ok k) o w s c p m = rw (c, m, ==-refl k) refl
life-leaked size true (throw e) (ok k) o w s c p m = rw (c, m, ==-refl k) refl
life-leaked size true m' (throw e) o w s c p m = rw c refl
life-leaked size false (ok a) c' (ok k) w s c p m = rw (p, m, ==-refl k) refl
life-leaked size false (throw e) c' (ok k) w s c p m = rw (p, m, ==-refl k) refl
life-leaked size false m' c' (throw e) w s c p m = rw p refl

-- What a call tells the system of a size is all of it: the two halves of `CreateFileMappingA`,
-- and the size of `MapViewOfFile`.
abbrev pub TellsSize : ℕ → SystemCall → Type 0
TellsSize size (create_file_mapping high low r) = (high * mod32 + low ≡ size) × (low < mod32)
TellsSize size (open_file_mapping r) = Unit
TellsSize size (map_view_of_file handle n r) = n ≡ size
TellsSize size (close_handle h) = Unit

halves : (size : ℕ) → (size_high size * mod32 + size_low size ≡ size) × (size_low size < mod32)
halves size = (omega arith, omega arith)

life-TellsSize :
    (size : ℕ) (b : Bool) (maps creates opens : Answer) (s : System)
    → s.creates ≡ creates
    → s.opens ≡ opens
    → s.maps ≡ maps
    → All (TellsSize size) (life (construct size b s))
unfolding construct after_handle after_map release destroy
life-TellsSize size true (ok a) (ok k) o s c p m = rw (c, m) (halves size, (refl, (tt, tt)))
life-TellsSize size true (throw e) (ok k) o s c p m = rw (c, m) (halves size, (refl, (tt, tt)))
life-TellsSize size true m' (throw e) o s c p m = rw c (halves size, tt)
life-TellsSize size false (ok a) c' (ok k) s c p m = rw (p, m) (tt, (refl, (tt, tt)))
life-TellsSize size false (throw e) c' (ok k) s c p m = rw (p, m) (tt, (refl, (tt, tt)))
life-TellsSize size false m' c' (throw e) s c p m = rw p (tt, tt)

-- However the system answers, an object that is constructed and destroyed, or whose constructor
-- throws, has closed each handle that it got; the view of an object that was constructed stays
-- mapped when the object is gone, and nothing else does. `CreateFileMappingA` is called with two
-- halves that make up the size, the low one of 32 bits, and `MapViewOfFile` with the size.
pub view_stays :
    (size : ℕ) (is_owner : Bool) (s : System) (w : Resources)
    → (after (life (construct size is_owner s)) w ≡ leaked (construct size is_owner s) w)
      × All (TellsSize size) (life (construct size is_owner s))
view_stays size is_owner s w = (
  life-leaked size is_owner s.maps s.creates s.opens w s refl refl refl,
  life-TellsSize size is_owner s.maps s.creates s.opens s refl refl refl,
)
