-- ===== src/Disk/Trace.antt =====
-- `read_config` of "Disk Scheduling/disksim.c": what it makes of the lines of a trace.
use mathlib.Core.List.{append-nil, append_assoc}
use operating_system_basics.Base.{
  ℕ, ◌+◌, ◌≡◌, refl, sym, ap, ◌∙◌, Bool, false, Option, none, some, List, [], ◌∷◌, ◌++◌, arith,
  length, All, leb, if◌then◌else◌, Bool-cases, inl, inr, ltb_ℤ, ltb→lt, not-ltb→le, ℤ, pos, ◌-ℤ◌,
  abs, int_laws, eq_of_parts,
}
use operating_system_basics.Base.CString.{strtok, atoi}
use operating_system_basics.LinkedList.{ListHead}
use operating_system_basics.Disk.{Task, Sim}
use operating_system_basics.Disk.Queues.{requests}
use operating_system_basics.Disk.Outcome.{IsLoaded}
use operating_system_basics.Disk.Geometry.{IsPlaced}

-- A line as `fgets` leaves it in the buffer, with its newline.
abbrev pub Line : Type 0
Line = List ℕ

-- `strnlen(buffer, MAX_BUFFER) <= 1`
abbrev pub is_blank : Line → Bool
is_blank l = leb (length l) 1

-- `start = atoi(val)` for the second of the tokens that `:` separates; `none` is the fault of
-- `atoi(NULL)`.
unfoldable pub read_start : Line → Option ℤ
read_start l = elim (strtok (b':' ∷ []) l) [
  | none ↦ none
  | some (token, rest) ↦ elim (strtok (b':' ∷ []) rest) [
    | none ↦ none
    | some (token, rest) ↦ some (atoi token)
  ]
]

module _ (library : ListHead Task) (fresh : Task) where
  open library use {entries, list_add_tail, entries-add_tail}

  -- The task of a line.
  unfoldable pub read_task : ℤ → Line → Task
  read_task start buffer =
      let cylinder = atoi buffer in
      let dist = cylinder -ℤ start in
      record fresh {
        cylinder = cylinder;
        up = if ltb_ℤ (pos 0) dist then 1 else 0;
        dist = abs dist;
      }

  -- The `while` of `read_config`.
  unfoldable pub read_loop : List Line → Sim library fresh → Sim library fresh
  read_loop [] s = s
  read_loop (buffer ∷ lines) s = read_loop lines (
      if is_blank buffer then s else record s {
        srcrq = list_add_tail (read_task s.start buffer) s.srcrq;
        processes = s.processes + 1;
      })

  -- With no line at all the first test reads the buffer that nothing has written: no result.
  unfoldable pub read_config : List Line → Sim library fresh → Option (Sim library fresh)
  read_config [] s = none
  read_config (first ∷ lines) s = if is_blank first then some s else elim (read_start first) [
    | none ↦ none
    | some start ↦ some (read_loop lines (record s { start = start; processes = 0 }))
  ]

  -- The requests of a trace: the lines that are not blank, in order.
  abbrev pub tasks_of : ℤ → List Line → List Task
  tasks_of start [] = []
  tasks_of start (l ∷ ls) =
      if is_blank l then tasks_of start ls else read_task start l ∷ tasks_of start ls

  read_loop_lem :
      (lines : List Line) (s : Sim library fresh)
      → let s' = read_loop lines s in
        (entries s'.srcrq ≡ entries s.srcrq ++ tasks_of s.start lines)
        × (s'.processes ≡ s.processes + length (tasks_of s.start lines))
        × (s'.start ≡ s.start)
        × (s'.out ≡ s.out)
  unfolding read_loop
  read_loop_lem [] s = (sym (append-nil _), omega arith, refl, refl)
  read_loop_lem (l ∷ ls) s = elim (Bool-cases (is_blank l)) [
    | inl e ↦ rw (e, read_loop) (read_loop_lem ls s)
    | inr e ↦
        let t = read_task s.start l in
        let (queue, count, same, out) =
          read_loop_lem ls
            (record s { srcrq = list_add_tail t s.srcrq; processes = s.processes + 1 }) in
        rw (e, read_loop)
          (
            queue
                ∙ ap (λ q. q ++ tasks_of s.start ls) (entries-add_tail t s.srcrq)
                ∙ append_assoc (entries s.srcrq) (t ∷ []) (tasks_of s.start ls),
            omega (arith, count),
            same,
            out,
          )
  ]

  -- The task of a line lies on the side of the start, and at the distance from it, that its fields
  -- say.
  read_task-IsPlaced : (start : ℤ) (l : Line) → IsPlaced start (read_task start l)
  unfolding read_task
  read_task-IsPlaced start l = elim (Bool-cases (ltb_ℤ (pos 0) (atoi l -ℤ start))) [
    | inl e ↦
        let lt = ltb→lt _ _ e in rw e (inl (refl, omega int_laws, eq_of_parts _ _ (omega int_laws)))
    | inr e ↦
        let ge = not-ltb→le _ _ e in
        rw e (inr (refl, omega int_laws, eq_of_parts _ _ (omega int_laws)))
  ]

  tasks_of-IsPlaced : (start : ℤ) (ls : List Line) → All (IsPlaced start) (tasks_of start ls)
  tasks_of-IsPlaced start [] = tt
  tasks_of-IsPlaced start (l ∷ ls) = elim (Bool-cases (is_blank l)) [
    | inl e ↦ rw e (tasks_of-IsPlaced start ls)
    | inr e ↦ rw e (read_task-IsPlaced start l, tasks_of-IsPlaced start ls)
  ]

  -- `read_config`, on a first line with a start and on an empty source queue, queues one task for
  -- each further line that is not blank, in order, counts them in `processes`, and marks each with
  -- its side of the start and its distance from it.
  pub read_config_lem :
      (first : Line) (lines : List Line) (s : Sim library fresh) (start : ℤ)
      → is_blank first ≡ false
      → read_start first ≡ some start
      → entries s.srcrq ≡ []
      → (s' : Sim library fresh) × (read_config (first ∷ lines) s ≡ some s')
        × (s'.start ≡ start)
        × (requests library fresh s' ≡ tasks_of start lines)
        × IsLoaded library fresh s'
        × All (IsPlaced s'.start) (requests library fresh s')
  unfolding read_config
  read_config_lem first lines s start full found empty =
      let s₀ = record s { start = start; processes = 0 } in
      let (queue, count, same, out) = read_loop_lem lines s₀ in
      let whole = queue ∙ ap (λ q. q ++ tasks_of start lines) empty in
      (
        read_loop lines s₀,
        rw (full, found),
        same,
        whole,
        omega (arith, count, ap length whole),
        rw (whole, same) (tasks_of-IsPlaced start lines),
      )
