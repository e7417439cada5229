-- ===== src/Malloc/Run.antt =====
-- "Efficient Mallocs"/mm_seggregatedLists.c: what its functions do to the memory. A load or a store
-- at an address that the process cannot access ends the program.
use operating_system_basics.Base.{ℕ, Bool, if◌then◌else◌}
use operating_system_basics.Malloc.{Heap, mem_sbrk, write, put}

-- `seglist` is the array of that name.
pub record State : Type 0 where
  pub heap : Heap
  pub seglist : ℕ → ℕ

pub data Run (A : Type 0) : Type 0 where
  ok : A → State → Run A
  fault : Run A
  out_of_fuel : Run A

abbrev pub Cmd : Type 0 → Type 0
Cmd A = State → Run A

abbrev pub pure : {A : Type 0} → A → Cmd A
pure = ok

module _ {A B : Type 0} where
  abbrev pub and_then : Run A → (A → Cmd B) → Run B
  and_then (ok a s) k = k a s
  and_then fault k = fault
  and_then out_of_fuel k = out_of_fuel

  infixl 5 ◌>>=◌ ◌>>◌
  abbrev pub ◌>>=◌ : Cmd A → (A → Cmd B) → Cmd B
  m >>= k = λ s. and_then (m s) k

  abbrev pub ◌>>◌ : Cmd A → Cmd B → Cmd B
  m >> n = m >>= λ _. n

-- `mapped`: the addresses that the process can access.
unfoldable pub load : (ℕ → Bool) → ℕ → Cmd ℕ
load mapped p s = if mapped p then ok (s.heap.mem p) s else fault

unfoldable pub store : (ℕ → Bool) → ℕ → ℕ → Cmd (Unit {0})
store mapped p v s = if mapped p then ok tt (record s { heap = put p v s.heap }) else fault

abbrev pub get_list : ℕ → Cmd ℕ
get_list i = λ s. ok (s.seglist i) s

abbrev pub set_list : ℕ → ℕ → Cmd (Unit {0})
set_list i p = λ s. ok tt (record s { seglist = write s.seglist i p })

unfoldable pub sbrk : ℕ → Cmd ℕ
sbrk size = λ s. let (p, h) = mem_sbrk size s.heap in ok p (record s { heap = h })
