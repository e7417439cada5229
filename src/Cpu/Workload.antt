-- ===== src/Cpu/Workload.antt =====
-- `read_config` of "Cpu Scheduling/schedsim.c", and `main` after the options.
use mathlib.Core.List.{append-nil, append_assoc}
use mathlib.Core.Option.{some-injective}
use operating_system_basics.Base.{
  ℕ, ◌+◌, ◌*◌, ◌≤◌, length-append, ◌≡◌, refl, sym, ap, ◌∙◌, subst, Bool, true, false, Option, none,
  some, List, [], ◌∷◌, ◌++◌, arith, length, leb, Bool-cases, inl, inr, pos, ◌+ℤ◌, +ℤ_assoc, +ℤ_zero,
}
use operating_system_basics.Base.CString.{strtok, atoi}
use operating_system_basics.LinkedList.{ListHead}
use operating_system_basics.Cpu.{
  Process, Sim, Policy, setup_scheduler, task_tick, fcfs_tick, sjf_tick,
}
use operating_system_basics.Cpu.ShortestJob.{total_burst}
use operating_system_basics.Cpu.Report.{Report, run_simulator, run_simulator-short}
use operating_system_basics.Cpu.Completion.{stcf_tick-count}

-- A line as `fgets` leaves it in the buffer, with its newline.
abbrev pub Line : Type 0
Line = List ℕ

-- `strnlen(buffer, MAX_BUFFER) <= 1`
abbrev pub is_blank : Line → Bool
is_blank l = leb (length l) 1

infixl 5 ◌>>=◌
abbrev ◌>>=◌ : {A B : Type 0} → Option A → (A → Option B) → Option B
none >>= f = none
some a >>= f = f a

module _ (library : ListHead Process) (fresh : Process) where
  open library use {entries, init_list_head, list_add_tail, entries-init, entries-add_tail}

  -- The four fields of a row, between commas; `none` is the fault of `atoi(NULL)`. The flags are
  -- what `malloc` left there.
  unfoldable pub read_process : Line → Option Process
  read_process buffer = do
    (tid, rest₁) ← strtok (b',' ∷ []) buffer
    (arr, rest₂) ← strtok (b',' ∷ []) rest₁
    (burst, rest₃) ← strtok (b',' ∷ []) rest₂
    (prio, rest₄) ← strtok (b',' ∷ []) rest₃
    some (record fresh { pid = atoi tid; arr = atoi arr; burst = atoi burst; prio = atoi prio })

  abbrev load : Process → Sim library fresh → Sim library fresh
  load ts s = record s {
    span = s.span +ℤ ts.burst;
    processes = s.processes + 1;
    srcrq = list_add_tail ts s.srcrq;
  }

  -- The `while` of `read_config`.
  unfoldable pub read_config : List Line → Sim library fresh → Option (Sim library fresh)
  read_config [] s = some s
  read_config (buffer ∷ lines) s = elim (is_blank buffer) [
    | true ↦ read_config lines s
    | false ↦ read_process buffer >>= λ ts. read_config lines (load ts s)
  ]

  -- The globals at the start, with the heads that `setup_scheduler` initialises.
  abbrev pub initial : Sim library fresh
  initial = record {
    processes = 0;
    span = pos 0;
    srcrq = init_list_head;
    runqueue = init_list_head;
  }

  -- `main` after its options: the name of the policy and the lines of the file. `read_config` asks for
  -- `3*processes` bytes at its end.
  unfoldable pub run : List ℕ → List Line → Option (Sim library fresh × Report)
  run name lines = do
    s ← read_config lines initial
    run_simulator library fresh (3 * s.processes) (setup_scheduler name) s

  -- The processes of a file; none if a row has fewer than four fields.
  abbrev pub processes_of : List Line → Option (List Process)
  processes_of [] = some []
  processes_of (l ∷ ls) = elim (is_blank l) [
    | true ↦ processes_of ls
    | false ↦ read_process l >>= λ p. processes_of ls >>= λ ps. some (p ∷ ps)
  ]

  -- What `read_config` has added to the state.
  pub record Loaded (s s' : Sim library fresh) (ps : List Process) : Type 0 where
    pub queue : entries s'.srcrq ≡ entries s.srcrq ++ ps
    pub count : s'.processes ≡ s.processes + length ps
    pub sum : s'.span ≡ s.span +ℤ total_burst ps
    pub same : s'.runqueue ≡ s.runqueue

  Loaded-nil : (s : Sim library fresh) → Loaded s s []
  Loaded-nil s = record {
    queue = sym (append-nil _);
    count = omega arith;
    sum = sym (+ℤ_zero _);
    same = refl;
  }

  Loaded-cons :
      (p : Process) (ps : List Process) (s s' : Sim library fresh)
      → Loaded (load p s) s' ps
      → Loaded s s' (p ∷ ps)
  Loaded-cons p ps s s' l = record {
    queue =
        l.queue
        ∙ ap (λ q. q ++ ps) (entries-add_tail p s.srcrq)
        ∙ append_assoc (entries s.srcrq) (p ∷ []) ps;
    count = omega (arith, l.count);
    sum = l.sum ∙ +ℤ_assoc s.span p.burst (total_burst ps);
    same = l.same;
  }

  cons-some :
      (o : Option (List Process)) (p : Process) (ps : List Process)
      → (o >>= λ qs. some (p ∷ qs)) ≡ some ps
      → (qs : List Process) × (o ≡ some qs) × (p ∷ qs ≡ ps)
  cons-some none p ps h = cc
  cons-some (some qs) p ps h = (qs, refl, some-injective (p ∷ qs) ps h)

  bind-some :
      (o : Option Process) (f : Process → Option (List Process)) (ps : List Process)
      → (o >>= f) ≡ some ps
      → (p : Process) × (o ≡ some p) × (f p ≡ some ps)
  bind-some none f ps h = cc
  bind-some (some p) f ps h = (p, refl, h)

  -- `read_config`, on lines that each are blank or have four fields, queues the processes of the
  -- rows in order, counts them, and adds their bursts to `span`; the run queue stays.
  pub read_config-Loaded :
      (lines : List Line) (s : Sim library fresh) (ps : List Process)
      → processes_of lines ≡ some ps
      → (s' : Sim library fresh) × (read_config lines s ≡ some s') × Loaded s s' ps
  unfolding read_config
  read_config-Loaded [] s ps h =
      (s, refl, subst (Loaded s s) (some-injective [] ps h) (Loaded-nil s))
  read_config-Loaded (l ∷ ls) s ps h = elim (Bool-cases (is_blank l)) [
    | inl e ↦ rw (e, read_config) (read_config-Loaded ls s ps (rw (e, processes_of) at h))
    | inr e ↦
        let (p, row, rest) = bind-some (read_process l) _ ps (rw (e, processes_of) at h) in
        let (qs, others, whole) = cons-some (processes_of ls) p ps rest in
        let (s', ok, loaded) = read_config-Loaded ls (load p s) qs others in
        (s', rw (e, read_config, row) ok, subst (Loaded s s') whole (Loaded-cons p qs s s' loaded))
  ]

  -- Every policy keeps the count of the processes or adds to it.
  task_tick-grows :
      (policy : Policy) (s : Sim library fresh)
      → s.processes ≡ length (entries s.srcrq)
      → s.processes ≤ (task_tick library fresh policy s).processes
  unfolding task_tick fcfs_tick sjf_tick
  task_tick-grows Policy.fcfs s e = omega arith
  task_tick-grows Policy.sjf s e = omega arith
  task_tick-grows Policy.stcf s e = (stcf_tick-count library fresh s e).1
  task_tick-grows Policy.none_set s e = omega arith

  run-read :
      (name : List ℕ) (lines : List Line) (s : Sim library fresh)
      → read_config lines initial ≡ some s
      → run name lines ≡ run_simulator library fresh (3 * s.processes) (setup_scheduler name) s
  unfolding run
  run-read name lines s e = rw e refl

  -- On every file with a process, whose lines each are blank or have four fields, and for every name
  -- of a policy, `main` reads or writes outside of `output`.
  pub run-overrun :
      (name : List ℕ) (lines : List Line) (p : Process) (ps : List Process)
      → processes_of lines ≡ some (p ∷ ps)
      → run name lines ≡ none
  run-overrun name lines p ps h =
      let (s, ok, loaded) = read_config-Loaded lines initial (p ∷ ps) h in
      let start : length (entries initial.srcrq) ≡ 0 = ap length entries-init in
      let queued : length (entries s.srcrq) ≡ length (entries initial.srcrq) + length (p ∷ ps) =
        ap length loaded.queue ∙ length-append (entries initial.srcrq) (p ∷ ps) in
      let grows = task_tick-grows (setup_scheduler name) s (omega (arith, loaded.count)) in
      run-read name lines s ok
      ∙ run_simulator-short library fresh (3 * s.processes) (setup_scheduler name) s
          (omega (arith, loaded.count))
