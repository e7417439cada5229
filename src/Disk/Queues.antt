-- ===== src/Disk/Queues.antt =====
-- The queues that the `*_tick` functions of "Disk Scheduling/disksim.c" build and sort, and the
-- lines that they print.
use mathlib.Core.List.{Perm, append-nil, append_assoc}
use Prim.Native.String.{String}
use operating_system_basics.Base.{
  ℕ, suc, ◌+◌, ◌≡◌, ◌≢◌, refl, sym, ap, ◌∙◌, subst, false, some, List, [], ◌∷◌, ◌++◌, arith, length,
  ℤ, pos, ◌+ℤ◌, ◌-ℤ◌, abs, +ℤ_zero, +ℤ_assoc, Perm-length,
}
use operating_system_basics.LinkedList.{ListHead, IsTotalPreorder, IsSorted}
use operating_system_basics.Disk.{
  Task, Out, text, num, Sim, fprintf, print_rq, print_loop, fcfs_loop, copy_dist, copy_all,
  with_ends, lowest_level, highest_level, cscan_loop, clook_loop,
}
use operating_system_basics.Disk.Travel.{cylinders, travel}

-- A line of cylinders: commas between them, and a newline after the last.
abbrev pub listing : List ℤ → List Out
listing [] = []
listing (c ∷ []) = num c ∷ text "\n" ∷ []
listing (c ∷ d ∷ cs) = num c ∷ text "," ∷ listing (d ∷ cs)

-- `print_rq` ends the line at the last entry, if `processes` counts the entries.
print_loop-listing :
    (ts : List Task) (processes i : ℕ)
    → processes ≡ i + length ts
    → print_loop processes ts i ≡ listing (cylinders ts)
unfolding print_loop
print_loop-listing [] n i e = refl
print_loop-listing (t ∷ []) n i e = ground arith
print_loop-listing (t ∷ u ∷ ts) n i e =
    ground (arith, print_loop-listing (u ∷ ts) n (i + 1) (omega arith))

cylinders-append : (ts us : List Task) → cylinders (ts ++ us) ≡ cylinders ts ++ cylinders us
cylinders-append [] us = refl
cylinders-append (t ∷ ts) us = ap (◌∷◌ t.cylinder) (cylinders-append ts us)

pub length-cylinders : (ts : List Task) → length (cylinders ts) ≡ length ts
length-cylinders [] = refl
length-cylinders (t ∷ ts) = ap suc (length-cylinders ts)

-- What a policy adds up, from the starting cylinder through the served entries.
abbrev pub Total : Type 0
Total = ℤ → List Task → ℤ

abbrev pub seek_total : Total
seek_total start ts = travel start (cylinders ts)

abbrev pub cscan_total : Total
cscan_total start ts = cscan_loop ts (pos 0, start, false)

abbrev pub clook_total : Total
clook_total start ts = clook_loop ts (pos 0, start, false)

-- The whole queue of `scan_tick` and `cscan_tick`: the lowest cylinder, the requests, the highest.
abbrev pub lowest : ℤ → Task
lowest start = record { cylinder = lowest_level; dist = start; up = 0 }

abbrev pub highest : ℤ → Task
highest start = record { cylinder = highest_level; dist = highest_level -ℤ start; up = 1 }

module _ (library : ListHead Task) (fresh : Task) where
  open library use {Head, entries, init_list_head, list_add_tail, list_sort, sorts}
  open library use {entries-init, entries-add_tail}

  -- The queue of `sstf_tick`: `up` is what `malloc` left there.
  abbrev pub without_up : List Task → List Task
  without_up [] = []
  without_up (t ∷ ts) = record t { up = fresh.up } ∷ without_up ts

  abbrev pub requests : Sim library fresh → List Task
  requests s = entries s.srcrq

  -- The line of a policy: its name, the total and the order.
  abbrev pub Prints : String → ℤ → List Task → Sim library fresh → Sim library fresh → Type 0
  Prints name total order s s' =
      s'.out ≡ s.out ++ (text name ∷ num total ∷ text "," ∷ listing (cylinders order))

  pub print_rq-out :
      (s : Sim library fresh)
      → s.processes ≡ length (entries s.runqueue)
      → (print_rq library fresh s).out ≡ s.out ++ listing (cylinders (entries s.runqueue))
  unfolding print_rq
  print_rq-out s e =
      ap (λ l. s.out ++ l) (print_loop-listing (entries s.runqueue) s.processes 0 (omega arith))

  -- The head line and the list of a policy.
  pub printed_lem :
      (name : String) (total : ℤ) (s : Sim library fresh)
      → s.processes ≡ length (entries s.runqueue)
      → (print_rq library fresh
          (fprintf library fresh (text name ∷ num total ∷ text "," ∷ []) s)).out
        ≡ s.out ++ (text name ∷ num total ∷ text "," ∷ listing (cylinders (entries s.runqueue)))
  unfolding fprintf
  printed_lem name total s e =
      print_rq-out (fprintf library fresh (text name ∷ num total ∷ text "," ∷ []) s) e
      ∙ append_assoc s.out (text name ∷ num total ∷ text "," ∷ []) _

  pub fcfs_loop-queue :
      (ts : List Task) (rq : Head) (total prev : ℤ)
      → cylinders (entries (fcfs_loop library fresh ts rq total prev).0)
        ≡ cylinders (entries rq) ++ cylinders ts
  unfolding fcfs_loop
  fcfs_loop-queue [] rq total prev = sym (append-nil _)
  fcfs_loop-queue (t ∷ ts) rq total prev =
      let new = record fresh { cylinder = t.cylinder } in
      fcfs_loop-queue ts (list_add_tail new rq) (total +ℤ abs (prev -ℤ t.cylinder)) t.cylinder
      ∙ ap (λ l. cylinders l ++ cylinders ts) (entries-add_tail new rq)
      ∙ ap (λ l. l ++ cylinders ts) (cylinders-append (entries rq) (new ∷ []))
      ∙ append_assoc (cylinders (entries rq)) (t.cylinder ∷ []) (cylinders ts)

  pub fcfs_loop-total :
      (ts : List Task) (rq : Head) (total prev : ℤ)
      → (fcfs_loop library fresh ts rq total prev).1 ≡ total +ℤ travel prev (cylinders ts)
  unfolding fcfs_loop travel
  fcfs_loop-total [] rq total prev = sym (+ℤ_zero total)
  fcfs_loop-total (t ∷ ts) rq total prev =
      fcfs_loop-total ts (list_add_tail (record fresh { cylinder = t.cylinder }) rq)
        (total +ℤ abs (prev -ℤ t.cylinder)) t.cylinder
      ∙ +ℤ_assoc total (abs (prev -ℤ t.cylinder)) (travel t.cylinder (cylinders ts))

  pub copy_all-entries :
      (ts : List Task) (rq : Head) → entries (copy_all library fresh ts rq) ≡ entries rq ++ ts
  unfolding copy_all
  copy_all-entries [] rq = sym (append-nil _)
  copy_all-entries (t ∷ ts) rq =
      copy_all-entries ts (list_add_tail t rq)
      ∙ ap (λ l. l ++ ts) (entries-add_tail t rq)
      ∙ append_assoc (entries rq) (t ∷ []) ts

  pub copy_dist-entries :
      (ts : List Task) (rq : Head)
      → entries (copy_dist library fresh ts rq) ≡ entries rq ++ without_up ts
  unfolding copy_dist
  copy_dist-entries [] rq = sym (append-nil _)
  copy_dist-entries (t ∷ ts) rq =
      copy_dist-entries ts (list_add_tail (record t { up = fresh.up }) rq)
      ∙ ap (λ l. l ++ without_up ts) (entries-add_tail (record t { up = fresh.up }) rq)
      ∙ append_assoc (entries rq) (record t { up = fresh.up } ∷ []) (without_up ts)

  pub length-without_up : (ts : List Task) → length (without_up ts) ≡ length ts
  length-without_up [] = refl
  length-without_up (t ∷ ts) = ap suc (length-without_up ts)

  pub with_ends-entries :
      (s : Sim library fresh)
      → entries (with_ends library fresh s)
        ≡ (lowest s.start ∷ requests s) ++ (highest s.start ∷ [])
  unfolding with_ends
  with_ends-entries s =
      entries-add_tail (highest s.start) _
      ∙ ap (λ l. l ++ (highest s.start ∷ []))
          (copy_all-entries (requests s) (list_add_tail (lowest s.start) init_list_head)
            ∙ ap (λ l. l ++ requests s)
                (entries-add_tail (lowest s.start) init_list_head
                  ∙ ap (λ l. l ++ (lowest s.start ∷ [])) entries-init))

  -- `list_sort` on the queue that a policy has built.
  pub record Sorted (cmp : Task → Task → ℕ) (q : Head) (queued : List Task) : Type 0 where
    pub rq : Head
    pub result : list_sort cmp q ≡ some rq
    pub same : Perm (entries rq) queued
    pub ordered : IsSorted cmp (entries rq)
    pub size : length (entries rq) ≡ length queued

  pub sorted_lem :
      (cmp : Task → Task → ℕ) (q : Head) (queued : List Task)
      → entries q ≡ queued
      → queued ≢ []
      → IsTotalPreorder cmp
      → Sorted cmp q queued
  sorted_lem cmp q queued e ne pre =
      let (rq, result, same, ordered) = sorts cmp q (λ n. ne (sym e ∙ n)) pre in
      record {
        rq = rq;
        result = result;
        same = subst (λ l. Perm (entries rq) l) e same;
        ordered = ordered;
        size = Perm-length same ∙ ap length e;
      }
