-- ===== src/Disk/Run.antt =====
-- The six policies of "Disk Scheduling/disksim.c", one after the other as `main` calls them.
use Prim.Native.String.{String}
use operating_system_basics.Base.{ℕ, ◌≡◌, ◌≢◌, refl, sym, ap, ◌∙◌, Option, some, List, [], length}
use operating_system_basics.LinkedList.{ListHead}
use operating_system_basics.Disk.{Task, Sim, run, fcfs_tick, ◌>>=◌}
use operating_system_basics.Disk.Queues.{requests, Total}
use operating_system_basics.Disk.Outcome.{IsLoaded, Served, Serves}
use operating_system_basics.Disk.Ticks.{
  fcfs_tick_lem, sstf_tick_lem, scan_tick_lem, cscan_tick_lem, look_tick_lem, clook_tick_lem,
}

module _ (library : ListHead Task) (fresh : Task) where
  -- What each policy needs of the state, and leaves.
  pub record Keeps (s s' : Sim library fresh) : Type 0 where
    pub loaded : IsLoaded library fresh s'
    pub source : s'.srcrq ≡ s.srcrq

  loaded_of :
      (s s' : Sim library fresh)
      → IsLoaded library fresh s
      → s'.processes ≡ s.processes
      → s'.srcrq ≡ s.srcrq
      → Keeps s s'
  loaded_of s s' e p q = record {
    loaded = p ∙ e ∙ ap (λ h. length (library.entries h)) (sym q);
    source = q;
  }

  Served-Keeps :
      {cmp : Task → Task → ℕ} {name : String} {total : Total} {queued : List Task}
      (s s' : Sim library fresh)
      → IsLoaded library fresh s
      → Served library fresh cmp name total queued s s'
      → Keeps s s'
  Served-Keeps s s' e served = loaded_of s s' e served.same_processes served.same_source

  -- A policy that ends without a fault on a loaded trace with a request, and keeps the trace.
  abbrev Succeeds : (Sim library fresh → Option (Sim library fresh)) → Type 0
  Succeeds f =
      (s : Sim library fresh)
      → IsLoaded library fresh s
      → requests library fresh s ≢ []
      → (s' : Sim library fresh) × (f s ≡ some s') × Keeps s s'

  chain-Succeeds :
      {f g : Sim library fresh → Option (Sim library fresh)}
      → Succeeds f
      → Succeeds g
      → Succeeds (λ s. f s >>= g)
  chain-Succeeds p q s e ne =
      let (t, ok, k) = p s e ne in
      let (u, done, l) = q t k.loaded (λ n. ne (ap library.entries (sym k.source) ∙ n)) in
      (u, rw ok done, record { loaded = l.loaded; source = l.source ∙ k.source })

  served-Succeeds :
      {f : Sim library fresh → Option (Sim library fresh)}
      {cmp : Sim library fresh → Task → Task → ℕ} {name : String} {total : Total}
      {queued : Sim library fresh → List Task}
      → ((s : Sim library fresh)
          → IsLoaded library fresh s
          → requests library fresh s ≢ []
          → Serves library fresh (cmp s) name total (queued s) s (f s))
      → Succeeds f
  served-Succeeds policy s e ne =
      let (s', ok, served) = policy s e ne in (s', ok, Served-Keeps s s' e served)

  fcfs-Succeeds : Succeeds (λ s. some (fcfs_tick library fresh s))
  fcfs-Succeeds s e ne =
      let (out, count, source) = fcfs_tick_lem library fresh s e in
      (fcfs_tick library fresh s, refl, loaded_of s (fcfs_tick library fresh s) e count source)

-- A run of all six policies over a loaded trace with a request ends without a fault, whatever the
-- random bits are, and leaves the trace and the count of its requests as they were.
pub run_lem :
    (library : ListHead Task) (fresh : Task) (r₁ r₂ r₃ r₄ : ℕ) (s : Sim library fresh)
    → IsLoaded library fresh s
    → requests library fresh s ≢ []
    → (s' : Sim library fresh) × (run library fresh r₁ r₂ r₃ r₄ s ≡ some s')
      × Keeps library fresh s s'
unfolding run
run_lem library fresh r₁ r₂ r₃ r₄ = chain-Succeeds library fresh (fcfs-Succeeds library fresh) (
    chain-Succeeds library fresh (served-Succeeds library fresh (sstf_tick_lem library fresh)) (
      chain-Succeeds library fresh
        (served-Succeeds library fresh (λ s e ne. scan_tick_lem library fresh s r₁ e))
        (chain-Succeeds library fresh
          (served-Succeeds library fresh (λ s e ne. cscan_tick_lem library fresh s r₂ e))
          (chain-Succeeds library fresh
            (served-Succeeds library fresh (λ s. look_tick_lem library fresh s r₃))
            (served-Succeeds library fresh (λ s. clook_tick_lem library fresh s r₄))))))
