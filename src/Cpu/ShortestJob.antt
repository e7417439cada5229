-- ===== src/Cpu/ShortestJob.antt =====
-- `sjf_tick` of "Cpu Scheduling/schedsim.c" moves each waiting process at most once.
use mathlib.Core.List.{Perm, perm_middle, append-nil, append_assoc}
use mathlib.Core.List.Perm
use operating_system_basics.Base.{
  ℕ, zero, suc, ◌+◌, ◌≡◌, refl, sym, ap, ◌∙◌, subst, Bool, true, false, List, [], ◌∷◌, ◌++◌, arith,
  ◌==◌, set, length, length-append, Bool-cases, inl, inr, ℤ, pos, pos_part, ◌+ℤ◌, +ℤ_assoc, +ℤ_zero,
  zero_+ℤ,
}
use operating_system_basics.LinkedList.{ListHead}
use operating_system_basics.Cpu.{
  Process, Sim, Sjf, copy_entry, is_due, sjf_entry, sjf_pass, sjf_loop, sjf_tick,
}
use operating_system_basics.Cpu.FirstCome.{keep, copies, copies-append}

-- The entries of the source queue that are not in the run queue.
abbrev pub is_waiting : Process → Bool
is_waiting e = e.on_rq == 0

abbrev pub waiting : List Process → List Process
waiting = keep is_waiting

abbrev pub total_burst : List Process → ℤ
total_burst [] = pos 0
total_burst (e ∷ es) = e.burst +ℤ total_burst es

total_burst-append :
    (xs ys : List Process) → total_burst (xs ++ ys) ≡ total_burst xs +ℤ total_burst ys
total_burst-append [] ys = sym (zero_+ℤ _)
total_burst-append (x ∷ xs) ys =
    rw (total_burst-append xs ys) (sym (+ℤ_assoc x.burst (total_burst xs) (total_burst ys)))

set-append :
    (xs : List Process) (e e' : Process) (ys : List Process) (p : ℕ)
    → p ≡ length xs
    → set (xs ++ (e ∷ ys)) p e' ≡ xs ++ (e' ∷ ys)
set-append [] e e' ys p h = rw h refl
set-append (x ∷ xs) e e' ys zero h = absurd (omega arith)
set-append (x ∷ xs) e e' ys (suc p) h = ap (◌∷◌ x) (set-append xs e e' ys p (omega arith))

module _ (library : ListHead Process) (fresh : Process) where
  open library use {Head, entries, list_add_tail, list_store, entries-add_tail, entries-store}

  -- From `s` to `s'` some of the waiting entries of `from` were queued; `to` is what `from` became.
  pub record Moved (s s' : Sjf library fresh) (from to : List Process) : Type 0 where
    pub queued : List Process
    pub run : entries s'.rq ≡ entries s.rq ++ copies library fresh queued
    pub parted : Perm (queued ++ waiting to) (waiting from)
    pub count : s'.added ≡ s.added + length queued
    pub bursts : s'.k ≡ s.k +ℤ total_burst queued

  Moved-refl : (s : Sjf library fresh) (es : List Process) → Moved s s es es
  Moved-refl s es = record {
    queued = [];
    run = sym (append-nil _);
    parted = Perm.rfl;
    count = omega arith;
    bursts = sym (+ℤ_zero _);
  }

  Moved-trans :
      {s t u : Sjf library fresh} {from mid to : List Process}
      → Moved s t from mid
      → Moved t u mid to
      → Moved s u from to
  Moved-trans {s} {t} {u} {from} {mid} {to} a b = record {
    queued = a.queued ++ b.queued;
    run =
        b.run
        ∙ ap (λ q. q ++ copies library fresh b.queued) a.run
        ∙ append_assoc (entries s.rq) (copies library fresh a.queued)
            (copies library fresh b.queued)
        ∙ ap (λ q. entries s.rq ++ q) (sym (copies-append library fresh a.queued b.queued));
    parted = rw append_assoc (Perm.trans (Perm.append_left a.queued b.parted) a.parted);
    count = omega (arith, a.count, b.count, length-append a.queued b.queued);
    bursts =
        b.bursts
        ∙ ap (λ k. k +ℤ total_burst b.queued) a.bursts
        ∙ +ℤ_assoc s.k (total_burst a.queued) (total_burst b.queued)
        ∙ ap (λ k. s.k +ℤ k) (sym (total_burst-append a.queued b.queued));
  }

  -- What a pass over `rest` does, where `done` stands before it in the source queue.
  record Passed (s s' : Sjf library fresh) (done rest : List Process) : Type 0 where
    rest' : List Process
    source : entries s'.src ≡ done ++ rest'
    moved : Moved s s' rest rest'

  -- An entry that stays: it is queued already, or it is not due.
  stay :
      {s s' : Sjf library fresh} (x : Process) {xs ys : List Process}
      → Moved s s' xs ys
      → Moved s s' (x ∷ xs) (x ∷ ys)
  stay x {xs} {ys} m = record {
    queued = m.queued;
    run = m.run;
    parted = elim (Bool-cases (is_waiting x)) [
      | inl free ↦ rw free (Perm.trans (perm_middle m.queued (waiting ys)) (Perm.cons x m.parted))
      | inr busy ↦ rw busy m.parted
    ];
    count = m.count;
    bursts = m.bursts;
  }

  admitted : ℕ → Process → Sjf library fresh → Sjf library fresh
  admitted p x s = record {
    src = list_store p (record x { on_rq = 1 }) s.src;
    rq = list_add_tail (copy_entry library fresh x) s.rq;
    k = s.k +ℤ x.burst;
    added = s.added + 1;
  }

  -- An entry that is queued.
  leave :
      {s s' : Sjf library fresh} (p : ℕ) (x : Process) {xs ys : List Process}
      → is_waiting x ≡ true
      → Moved (admitted p x s) s' xs ys
      → Moved s s' (x ∷ xs) (record x { on_rq = 1 } ∷ ys)
  unfolding admitted
  leave {s} p x free m = record {
    queued = x ∷ m.queued;
    run =
        m.run
        ∙ ap (λ q. q ++ copies library fresh m.queued)
            (entries-add_tail (copy_entry library fresh x) s.rq)
        ∙ append_assoc (entries s.rq) (copy_entry library fresh x ∷ [])
            (copies library fresh m.queued);
    parted = rw free (Perm.cons x m.parted);
    count = omega (arith, m.count);
    bursts = m.bursts ∙ +ℤ_assoc s.k x.burst (total_burst m.queued);
  }

  sjf_entry-skip :
      (i j : ℤ) (p : ℕ) (x : Process) (s : Sjf library fresh)
      → is_waiting x ≡ false
      → sjf_entry library fresh i p x (j, s) ≡ (j, s)
  unfolding sjf_entry
  sjf_entry-skip i j p x s h = rw h

  sjf_entry-early :
      (i j : ℤ) (p : ℕ) (x : Process) (s : Sjf library fresh)
      → is_waiting x ≡ true
      → is_due x i (j +ℤ x.burst) s.k ≡ false
      → sjf_entry library fresh i p x (j, s) ≡ (j +ℤ x.burst, s)
  unfolding sjf_entry
  sjf_entry-early i j p x s h k = rw (h, k)

  sjf_entry-due :
      (i j : ℤ) (p : ℕ) (x : Process) (s : Sjf library fresh)
      → is_waiting x ≡ true
      → is_due x i (j +ℤ x.burst) s.k ≡ true
      → sjf_entry library fresh i p x (j, s) ≡ (j +ℤ x.burst, admitted p x s)
  unfolding sjf_entry admitted
  sjf_entry-due i j p x s h k = rw (h, k)

  -- One step of the pass, and the pass over the rest.
  next :
      {s s₁ s' : Sjf library fresh} {done xs : List Process} (x x' : Process)
      → ((ys : List Process) → Moved s₁ s' xs ys → Moved s s' (x ∷ xs) (x' ∷ ys))
      → Passed s₁ s' (done ++ (x' ∷ [])) xs
      → Passed s s' done (x ∷ xs)
  next {done = done} x x' cons passed = record {
    rest' = x' ∷ passed.rest';
    source = passed.source ∙ append_assoc done (x' ∷ []) passed.rest';
    moved = cons passed.rest' passed.moved;
  }

  sjf_pass-Passed :
      (i : ℤ) (p : ℕ) (done rest : List Process) (j : ℤ) (s : Sjf library fresh)
      → entries s.src ≡ done ++ rest
      → p ≡ length done
      → Passed s (sjf_pass library fresh i p rest (j, s)) done rest
  unfolding sjf_pass
  sjf_pass-Passed i p done [] j s e h = record { rest' = []; source = e; moved = Moved-refl s [] }
  sjf_pass-Passed i p done (x ∷ xs) j s e h =
      let one = length-append done (x ∷ []) in
      let here = λ (y : Process). append_assoc done (y ∷ []) xs in
      elim (Bool-cases (is_waiting x)) [
        | inr busy ↦ rw (sjf_entry-skip i j p x s busy) (
            next x x (λ ys. stay x)
              (sjf_pass-Passed i (p + 1) (done ++ (x ∷ [])) xs j s (e ∙ sym (here x))
                (omega (arith, one))))
        | inl free ↦ elim (Bool-cases (is_due x i (j +ℤ x.burst) s.k)) [
          | inr early ↦ rw (sjf_entry-early i j p x s free early) (
              next x x (λ ys. stay x)
                (sjf_pass-Passed i (p + 1) (done ++ (x ∷ [])) xs (j +ℤ x.burst) s (e ∙ sym (here x))
                  (omega (arith, one))))
          | inl due ↦
              let x' = record x { on_rq = 1 } in
              let stored =
                entries-store p x' s.src
                ∙ ap (λ q. set q p x') e
                ∙ set-append done x x' xs p h
                ∙ sym (here x') in
              rw (sjf_entry-due i j p x s free due) (
                next x x' (λ ys. leave p x free)
                  (sjf_pass-Passed i (p + 1) (done ++ (x' ∷ [])) xs (j +ℤ x.burst) (admitted p x s)
                    (unfold admitted in stored) (omega (arith, length-append done (x' ∷ [])))))
        ]
      ]

  pass-Moved :
      (i : ℤ) (s : Sjf library fresh)
      → let s' = sjf_pass library fresh i 0 (entries s.src) (pos 0, s) in
        Moved s s' (entries s.src) (entries s'.src)
  pass-Moved i s =
      let passed = sjf_pass-Passed i 0 [] (entries s.src) (pos 0) s refl refl in
      subst (Moved s (sjf_pass library fresh i 0 (entries s.src) (pos 0, s)) (entries s.src))
        (sym passed.source) passed.moved

  sjf_loop-Moved :
      (n i processes : ℕ) (s : Sjf library fresh)
      → let s' = sjf_loop library fresh n i processes s in
        Moved s s' (entries s.src) (entries s'.src)
  unfolding sjf_loop
  sjf_loop-Moved zero i processes s = Moved-refl s (entries s.src)
  sjf_loop-Moved (suc n) i processes s = elim (Bool-cases (s.added == processes)) [
    | inl all_in ↦ rw (all_in, sjf_loop) (Moved-refl s (entries s.src))
    | inr more ↦
        let s₁ = sjf_pass library fresh (pos i) 0 (entries s.src) (pos 0, s) in
        rw (more, sjf_loop)
          (Moved-trans (pass-Moved (pos i) s) (sjf_loop-Moved n (i + 1) processes s₁))
  ]

-- `sjf_tick` appends copies of some waiting processes to the run queue; with the processes that
-- still wait afterwards they are the processes that waited before, each as often: none is queued
-- twice, lost or invented.
pub sjf_tick-perm :
    (library : ListHead Process) (fresh : Process) (s : Sim library fresh)
    → let s' = sjf_tick library fresh s in
      (queued : List Process) × (library.entries s'.runqueue
        ≡ library.entries s.runqueue ++ copies library fresh queued)
      × Perm (queued ++ waiting (library.entries s'.srcrq)) (waiting (library.entries s.srcrq))
unfolding sjf_tick
sjf_tick-perm library fresh s =
    let moved =
      sjf_loop-Moved library fresh (pos_part s.span) 0 s.processes
        (record { src = s.srcrq; rq = s.runqueue; k = pos 0; added = 0 }) in
    (moved.queued, moved.run, moved.parted)
