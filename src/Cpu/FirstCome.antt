-- ===== src/Cpu/FirstCome.antt =====
-- `fcfs_tick` of "Cpu Scheduling/schedsim.c" queues the processes by their arrival.
use mathlib.Core.List.{Perm, perm_middle, append-nil, append_assoc}
use mathlib.Core.List.Perm
use operating_system_basics.Base.{
  ℕ, zero, suc, ◌+◌, ◌≤◌, ◌<◌, ◌≡◌, refl, sym, ap, ◌∙◌, Bool, true, false, not, ◌&&◌, List, [], ◌∷◌,
  ◌++◌, arith, All, All-append, ◌==◌, ==_iff, if◌then◌else◌, length, Bool-cases, inl, inr, count_if,
  pos, pos_part, ◌≤ℤ◌, ltb_ℤ, eqb_ℤ,
}
use operating_system_basics.LinkedList.{ListHead}
use operating_system_basics.Cpu.{Process, Sim, copy_entry, fcfs_pass, fcfs_loop, fcfs_tick}

-- The processes that pass a test, in order.
abbrev pub keep : (Process → Bool) → List Process → List Process
keep p [] = []
keep p (e ∷ es) = if p e then e ∷ keep p es else keep p es

abbrev pub arrives_at : ℕ → Process → Bool
arrives_at i e = eqb_ℤ e.arr (pos i)

-- The arrival is at tick `lo` or later, and before `hi`.
abbrev pub within : ℕ → ℕ → Process → Bool
within lo hi e = not (ltb_ℤ e.arr (pos lo)) && ltb_ℤ e.arr (pos hi)

-- Tick by tick from `i`, the processes that arrive at each.
abbrev by_arrival : ℕ → ℕ → List Process → List Process
by_arrival zero i src = []
by_arrival (suc n) i src = keep (arrives_at i) src ++ by_arrival n (i + 1) src

-- In the order of the arrivals.
abbrev pub IsAscending : List Process → Type 0
IsAscending [] = Unit
IsAscending (e ∷ es) = All (λ d. e.arr ≤ℤ d.arr) es × IsAscending es

keep-split :
    (lo hi : ℕ) (src : List Process)
    → lo < hi
    → Perm (keep (arrives_at lo) src ++ keep (within (lo + 1) hi) src) (keep (within lo hi) src)
keep-split lo hi [] h = Perm.rfl
keep-split lo hi (e ∷ es) h = elim (Bool-cases (arrives_at lo e)) [
  | inl now ↦
      let later : within (lo + 1) hi e ≡ false = ground arith in
      let both : within lo hi e ≡ true = ground arith in
      rw (now, later, both) (Perm.cons e (keep-split lo hi es h))
  | inr other ↦ elim (Bool-cases (within (lo + 1) hi e)) [
    | inl later ↦
        let both : within lo hi e ≡ true = ground arith in
        rw (other, later, both)
          (Perm.trans (perm_middle (keep (arrives_at lo) es) (keep (within (lo + 1) hi) es))
            (Perm.cons e (keep-split lo hi es h)))
    | inr out ↦
        let both : within lo hi e ≡ false = ground arith in
        rw (other, out, both) (keep-split lo hi es h)
  ]
]

keep-empty : (i : ℕ) (src : List Process) → keep (within i i) src ≡ []
keep-empty i [] = refl
keep-empty i (e ∷ es) = let out : within i i e ≡ false = ground arith in rw out (keep-empty i es)

by_arrival-perm :
    (n i : ℕ) (src : List Process) → Perm (by_arrival n i src) (keep (within i (i + n)) src)
by_arrival-perm zero i src = let e : i + 0 ≡ i = omega arith in rw (e, keep-empty i src) Perm.rfl
by_arrival-perm (suc n) i src =
    let e : i + 1 + n ≡ i + suc n = omega arith in
    Perm.trans
      (Perm.append_left (keep (arrives_at i) src) (rw e at (by_arrival-perm n (i + 1) src)))
      (keep-split i (i + suc n) src (omega arith))

keep-All : (p : Process → Bool) (src : List Process) → All (λ e. p e ≡ true) (keep p src)
keep-All p [] = tt
keep-All p (e ∷ es) = elim (Bool-cases (p e)) [
  | inl h ↦ rw h (h, keep-All p es)
  | inr h ↦ rw h (keep-All p es)
]

All-weaken :
    {P Q : Process → Type 0} (xs : List Process) → ((e : Process) → P e → Q e) → All P xs → All Q xs
All-weaken [] f h = tt
All-weaken (x ∷ xs) f h = (f x h.0, All-weaken xs f h.1)

by_arrival-from : (n i : ℕ) (src : List Process) → All (λ e. pos i ≤ℤ e.arr) (by_arrival n i src)
by_arrival-from zero i src = tt
by_arrival-from (suc n) i src =
    All-append (λ e. pos i ≤ℤ e.arr) (keep (arrives_at i) src) (by_arrival n (i + 1) src)
      (All-weaken (keep (arrives_at i) src) (λ e h. ground arith) (keep-All (arrives_at i) src))
      (All-weaken (by_arrival n (i + 1) src) (λ e h. omega arith) (by_arrival-from n (i + 1) src))

same-IsAscending :
    (i : ℕ) (xs ys : List Process)
    → All (λ e. arrives_at i e ≡ true) xs
    → All (λ e. pos (i + 1) ≤ℤ e.arr) ys
    → IsAscending ys
    → IsAscending (xs ++ ys)
same-IsAscending i [] ys h k s = s
same-IsAscending i (x ∷ xs) ys h k s = (
  All-append (λ d. x.arr ≤ℤ d.arr) xs ys (All-weaken xs (λ d e. ground (arith, h.0)) h.1)
      (All-weaken ys (λ d e. ground (arith, h.0)) k),
  same-IsAscending i xs ys h.1 k s,
)

by_arrival-IsAscending : (n i : ℕ) (src : List Process) → IsAscending (by_arrival n i src)
by_arrival-IsAscending zero i src = tt
by_arrival-IsAscending (suc n) i src =
    same-IsAscending i (keep (arrives_at i) src) (by_arrival n (i + 1) src)
      (keep-All (arrives_at i) src) (by_arrival-from n (i + 1) src)
      (by_arrival-IsAscending n (i + 1) src)

-- The processes that arrive before a tick.
abbrev before : ℕ → Process → Bool
before i = within 0 i

count-before :
    (i : ℕ) (src : List Process)
    → count_if (before (i + 1)) src ≡ count_if (before i) src + length (keep (arrives_at i) src)
count-before i [] = omega arith
count-before i (e ∷ es) = elim (Bool-cases (arrives_at i e)) [
  | inl now ↦ rw now (ground (arith, now, count-before i es))
  | inr other ↦ rw other (ground (arith, other, count-before i es))
]

count-le : (p : Process → Bool) (src : List Process) → count_if p src ≤ length src
count-le p [] = omega arith
count-le p (e ∷ es) = ground (arith, count-le p es)

-- Once all have arrived, none arrives later.
none_later :
    (i j : ℕ) (src : List Process)
    → i ≤ j
    → count_if (before i) src ≡ length src
    → keep (arrives_at j) src ≡ []
none_later i j [] h c = refl
none_later i j (e ∷ es) h c =
    let out : arrives_at j e ≡ false = ground (arith, count-le (before i) es) in
    rw out (none_later i j es h (ground (arith, count-le (before i) es)))

by_arrival-done :
    (n i j : ℕ) (src : List Process)
    → i ≤ j
    → count_if (before i) src ≡ length src
    → by_arrival n j src ≡ []
by_arrival-done zero i j src h c = refl
by_arrival-done (suc n) i j src h c =
    rw (none_later i j src h c) (by_arrival-done n i (j + 1) src (omega arith) c)

module _ (library : ListHead Process) (fresh : Process) where
  open library use {Head, entries, list_add_tail, entries-add_tail}

  -- What the policies put into the run queue for each process.
  abbrev pub copies : List Process → List Process
  copies [] = []
  copies (e ∷ es) = copy_entry library fresh e ∷ copies es

  pub copies-append : (xs ys : List Process) → copies (xs ++ ys) ≡ copies xs ++ copies ys
  copies-append [] ys = refl
  copies-append (x ∷ xs) ys = ap (◌∷◌ (copy_entry library fresh x)) (copies-append xs ys)

  fcfs_pass-lem :
      (i : ℕ) (src : List Process) (rq : Head) (added : ℕ)
      → let (rq', added') = fcfs_pass library fresh i src (rq, added) in
        (entries rq' ≡ entries rq ++ copies (keep (arrives_at i) src))
        × (added' ≡ added + length (keep (arrives_at i) src))
  unfolding fcfs_pass
  fcfs_pass-lem i [] rq added = (sym (append-nil _), omega arith)
  fcfs_pass-lem i (e ∷ es) rq added = elim (Bool-cases (arrives_at i e)) [
    | inl now ↦
        let c = copy_entry library fresh e in
        let (queue, count) = fcfs_pass-lem i es (list_add_tail c rq) (added + 1) in
        rw (now, fcfs_pass)
          (
            queue
                ∙ ap (λ q. q ++ copies (keep (arrives_at i) es)) (entries-add_tail c rq)
                ∙ append_assoc (entries rq) (c ∷ []) (copies (keep (arrives_at i) es)),
            omega (arith, count),
          )
    | inr other ↦ rw (other, fcfs_pass) (fcfs_pass-lem i es rq added)
  ]

  fcfs_loop-lem :
      (n i : ℕ) (src : List Process) (rq : Head) (added : ℕ)
      → added ≡ count_if (before i) src
      → entries (fcfs_loop library fresh n i (length src) src (rq, added))
        ≡ entries rq ++ copies (by_arrival n i src)
  unfolding fcfs_loop
  fcfs_loop-lem zero i src rq added e = sym (append-nil _)
  fcfs_loop-lem (suc n) i src rq added e = elim (Bool-cases (added == length src)) [
    | inl all_in ↦
        let full = (==_iff added (length src)).0 all_in in
        rw (all_in, by_arrival-done (suc n) i i src (omega arith) (sym e ∙ full))
          (sym (append-nil _))
    | inr more ↦
        let (queue, count) = fcfs_pass-lem i src rq added in
        let (rq', added') = fcfs_pass library fresh i src (rq, added) in
        rw more (
          fcfs_loop-lem n (i + 1) src rq' added' (omega (arith, count, count-before i src))
          ∙ ap (λ q. q ++ copies (by_arrival n (i + 1) src)) queue
          ∙ append_assoc (entries rq) (copies (keep (arrives_at i) src)) _
          ∙ ap (λ q. entries rq ++ q)
              (sym (copies-append (keep (arrives_at i) src) (by_arrival n (i + 1) src))))
  ]

count-none : (src : List Process) → count_if (before 0) src ≡ 0
count-none [] = refl
count-none (e ∷ es) = ground (arith, count-none es)

-- `fcfs_tick`, where `processes` counts the source queue, appends to the run queue one copy of each
-- process that arrives at tick 0 or later and before the sum of all bursts, and of no other, in
-- the order of the arrivals.
pub fcfs_tick-IsAscending :
    (library : ListHead Process) (fresh : Process) (s : Sim library fresh)
    → s.processes ≡ length (library.entries s.srcrq)
    → (order : List Process) × (library.entries (fcfs_tick library fresh s).runqueue
        ≡ library.entries s.runqueue ++ copies library fresh order)
      × Perm order (keep (within 0 (pos_part s.span)) (library.entries s.srcrq))
      × IsAscending order
unfolding fcfs_tick
fcfs_tick-IsAscending library fresh s e =
    let src = library.entries s.srcrq in
    let n = pos_part s.span in
    let m : 0 + n ≡ n = omega arith in
    (
      by_arrival n 0 src,
      rw e (fcfs_loop-lem library fresh n 0 src s.runqueue 0 (sym (count-none src))),
      rw m at (by_arrival-perm n 0 src),
      by_arrival-IsAscending n 0 src,
    )
