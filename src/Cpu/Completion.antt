-- ===== src/Cpu/Completion.antt =====
-- The counters of `stcf_tick` of "Cpu Scheduling/schedsim.c" agree with the queues.
use operating_system_basics.Base.{
  ℕ, zero, suc, ◌+◌, ◌≤◌, ◌≡◌, refl, ap, ◌∙◌, Bool, true, false, Option, none, some, List, [], ◌∷◌,
  arith, ◌==◌, if◌then◌else◌, length, length-append, length-set, length-insert, Bool-cases, inl,
  inr, ℤ, pos, pos_part, ◌+ℤ◌,
}
use operating_system_basics.LinkedList.{ListHead}
use operating_system_basics.Cpu.{
  Process, Sim, Stcf, is_due, stcf_admit, stcf_entry, stcf_pass, stcf_loop, stcf_tick,
}

module _ (library : ListHead Process) (fresh : Process) where
  open library use {Head, entries, list_add_tail, list_add_after, list_add_before, list_store}
  open library use {entries-add_tail, entries-add_after, entries-add_before, entries-store}

  size : Head → ℕ
  size h = length (entries h)

  size-add_tail : (x : Process) (h : Head) → size (list_add_tail x h) ≡ size h + 1
  unfolding size
  size-add_tail x h = ap length (entries-add_tail x h) ∙ length-append (entries h) (x ∷ [])

  size-add_after : (i : ℕ) (x : Process) (h : Head) → size (list_add_after i x h) ≡ size h + 1
  unfolding size
  size-add_after i x h = ap length (entries-add_after i x h) ∙ length-insert (suc i) x (entries h)

  size-add_before : (i : ℕ) (x : Process) (h : Head) → size (list_add_before i x h) ≡ size h + 1
  unfolding size
  size-add_before i x h = ap length (entries-add_before i x h) ∙ length-insert i x (entries h)

  size-store : (i : ℕ) (x : Process) (h : Head) → size (list_store i x h) ≡ size h
  unfolding size
  size-store i x h = ap length (entries-store i x h) ∙ length-set (entries h) i x

  ruleset sizes = (arith, size-add_tail, size-add_after, size-add_before, size-store)

  -- The source queue has grown with `processes`, and the run queue with `processAdded`.
  pub record Agrees (s s' : Stcf library fresh) : Type 0 where
    pub source : length (entries s'.src) + s.processes ≡ length (entries s.src) + s'.processes
    pub grows : s.processes ≤ s'.processes
    pub run : length (entries s'.rq) + s.added ≡ length (entries s.rq) + s'.added

  admit-Agrees :
      (p : ℕ) (entry : Process) (hit : Option (ℕ × Process)) (m : ℤ) (s : Stcf library fresh)
      → Agrees s (stcf_admit library fresh p entry hit m s).0
  unfolding stcf_admit size
  admit-Agrees p entry none m s = omega sizes
  admit-Agrees p entry (some (q, entry₂)) m s = elim (Bool-cases (s.added + 1 == s.processes)) [
    | inl e ↦ rw e (omega sizes)
    | inr e ↦ rw e (omega sizes)
  ]

  Agrees-refl : (s : Stcf library fresh) → Agrees s s
  Agrees-refl s = record { source = refl; grows = omega arith; run = refl }

  Agrees-trans : {s t u : Stcf library fresh} → Agrees s t → Agrees t u → Agrees s u
  Agrees-trans a b = record {
    source = omega (arith, a.source, b.source);
    grows = omega (arith, a.grows, b.grows);
    run = omega (arith, a.run, b.run);
  }

  either-Agrees :
      (b : Bool) {s t u : Stcf library fresh}
      → Agrees s t
      → Agrees s u
      → Agrees s (if b then t else u)
  either-Agrees true a b = a
  either-Agrees false a b = b

  entry-Agrees :
      (i : ℤ) (entry : Process) (j : ℤ) (s : Stcf library fresh) (p : ℕ)
      → Agrees s (stcf_entry library fresh i entry (j, s, p)).1
  unfolding stcf_entry
  entry-Agrees i entry j s p = elim (Bool-cases (entry.on_rq == 0)) [
    | inr e ↦ rw e (Agrees-refl s)
    | inl e ↦ elim (Bool-cases (is_due entry i (j +ℤ entry.burst) s.k)) [
      | inr f ↦ rw (e, f) (Agrees-refl s)
      | inl f ↦ rw (e, f) (admit-Agrees p entry _ _ s)
    ]
  ]

  pass-Agrees :
      (i : ℤ) (rest : List Process) (j : ℤ) (s : Stcf library fresh) (p : ℕ)
      → Agrees s (stcf_pass library fresh i rest (j, s, p))
  unfolding stcf_pass
  pass-Agrees i [] j s p = Agrees-refl s
  pass-Agrees i (entry ∷ rest) j s p =
      let (j', s', p') = stcf_entry library fresh i entry (j, s, p) in
      let step = entry-Agrees i entry j s p in
      either-Agrees s'.finished step (Agrees-trans step (pass-Agrees i rest j' s' p'))

  loop-Agrees : (n i : ℕ) (s : Stcf library fresh) → Agrees s (stcf_loop library fresh n i s)
  unfolding stcf_loop
  loop-Agrees zero i s = Agrees-refl s
  loop-Agrees (suc n) i s =
      let s' = stcf_pass library fresh (pos i) (entries s.src) (pos 0, s, 0) in
      let step = pass-Agrees (pos i) (entries s.src) (pos 0) s 0 in
      either-Agrees s'.finished step (Agrees-trans step (loop-Agrees n (i + 1) s'))

-- `stcf_tick` keeps the source queue and `processes` in step: if `processes` counted the source
-- queue, it does so afterwards, with the remainders of the preempted processes.
pub stcf_tick-count :
    (library : ListHead Process) (fresh : Process) (s : Sim library fresh)
    → s.processes ≡ length (library.entries s.srcrq)
    → let s' = stcf_tick library fresh s in
      (s'.processes ≡ length (library.entries s'.srcrq)) × (s.processes ≤ s'.processes)
unfolding stcf_tick
stcf_tick-count library fresh s e =
    let start : Stcf library fresh = record {
      src = s.srcrq;
      rq = s.runqueue;
      k = pos 0;
      m = pos 0;
      added = 0;
      processes = s.processes;
      finished = false;
    } in
    let agrees = loop-Agrees library fresh (pos_part s.span) 0 start in
    (omega (arith, agrees.source), agrees.grows)
