-- ===== src/Malloc/Segregated/Tests.antt =====
-- mm_seggregatedLists.c: the theorems at a small heap.
use operating_system_basics.Base.{ℕ, ◌≡◌, ◌⊎◌, refl, ◌==◌, leb, if◌then◌else◌, Bool, arith}
use operating_system_basics.Malloc.Run.{State, Run, ok, fault, out_of_fuel, load, store}
use operating_system_basics.Malloc.Segregated.{
  list_count, class_loop, class_of, insert_walk, link_block, insert_block,
}
use operating_system_basics.Malloc.Segregated.Requests.{
  mm_init, mm_free, search_lists, newsize_of, coalesce, merge,
}
use operating_system_basics.Malloc.Segregated.Start.{mm_init-fault}
use operating_system_basics.Malloc.Segregated.Lost.{mm_free-lost}

-- Every address outside of the first page can be accessed.
abbrev outside_page : ℕ → Bool
outside_page p = leb 4096 p

abbrev blank : State
blank = record {
  heap = record {
    mem = λ p. 0;
    mem_start_brk = 8192;
    mem_brk = 8192;
    mem_max_addr = 20979712;
    heap_listp = 0;
    start = 0;
  };
  seglist = λ i. 0;
}

-- An allocated block of 32 bytes at 8288, which holds the addresses 9000 and 9100 where its pointers
-- will be.
abbrev one_block : State
one_block = record blank {
  heap = record blank.heap {
    mem = λ p.
        if p == 8284
        then 33
        else if p == 8312
        then 33
        else if p == 8288
        then 9000
        else if p == 8296
        then 9100
        else 0;
  };
}

class_run : class_of 4096 ≡ (12, 1)
unfolding class_of class_loop
class_run = refl

newsize_run : newsize_of 20 ≡ 32
unfolding newsize_of
newsize_run = refl

-- The first block pointer of the state and its header, after a run.
after : {A : Type 0} → Run A → ℕ × ℕ
after (ok a s) = (s.heap.mem 8284, s.heap.mem 9000)
after fault = (1, 1)
after out_of_fuel = (2, 2)

free_run : after (mm_free outside_page 1 1 1 8288 one_block) ≡ (32, 0)
unfolding after mm_free coalesce merge insert_block insert_walk link_block load store class_of
    class_loop
free_run = refl

mm_init-fault_example : mm_init outside_page 1 0 1 blank ≡ fault
mm_init-fault_example =
    mm_init-fault outside_page 0 0 1 blank refl (λ p k. ground arith) (λ p. refl) (omega arith)
      (omega arith) (omega arith)

mm_free-lost_example :
    (mm_free outside_page 1 1 1 8288 one_block ≡ fault)
    ⊎ ((t : State) × (mm_free outside_page 1 1 1 8288 one_block ≡ ok tt t)
        × ((size newsize : ℕ) → search_lists outside_page list_count 1 0 size newsize t ≡ ok 0 t))
mm_free-lost_example =
    mm_free-lost outside_page 0 1 1 8288 one_block (λ i. refl) (λ e. absurd (omega arith))
      (λ e. absurd (omega arith))
