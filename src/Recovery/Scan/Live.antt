-- ===== src/Recovery/Scan/Live.antt =====
-- A scan leaves the runs of live replicas alone.
use ouvrier.Base.{
  ◌≤◌, ◌≡◌, ◌≢◌, inl, inr, Bool, true, false, Option, none, some, List, [], ◌∷◌, arith, eq_iff,
  eq_string, eq_nat, ◌==◌, Result, ok, err, Bool-cases, Result-cases, lookup, All, trim_space,
}
use ouvrier.State.Types.{Context, Lease, Execution, RunJournal, MemoryStore}
use ouvrier.State.Journal.{list_run_journals}
use ouvrier.State.Leases.{acquire_lease, lease_args}
use ouvrier.State.Leases.Fencing.{acquire, step, run}
use ouvrier.State.Leases.Exclusion.{step_keeps, held_lease_excludes}
use ouvrier.Cron.{LeaseConfig, is_done}
use ouvrier.Recovery.Scan.{
  durable_run_lease_name, Turn, Claim, RowEnd, returned, passed, claimed, on_acquire, acquire_run,
  on_claimable, scan_row, scan_rows, with_rest, recover_durable_runs_scan,
}
use ouvrier.Recovery.Scan.{Error}

-- The lease stands in its row.
abbrev pub IsHeld : Lease → MemoryStore → Type 0
IsHeld l s = lookup l.name s.leases ≡ some l

-- The claim is of another run than the lease's.
abbrev pub IsElsewhere : Lease → Claim → Type 0
IsElsewhere l c = trim_space (durable_run_lease_name c.journal.exec_id) ≢ l.name

abbrev IsRowElsewhere : Lease → RowEnd → Type 0
IsRowElsewhere l returned = Unit {0}
IsRowElsewhere l passed = Unit {0}
IsRowElsewhere l (claimed c) = IsElsewhere l c

-- At this row the others keep the lease in its row, and the clock has not passed its expiry.
abbrev pub IsLiveAt : Lease → Turn → Type 0
IsLiveAt l turn =
    ((s : MemoryStore) → IsHeld l s → IsHeld l (turn.meanwhile s))
    × (turn.at_acquire.1 ≤ l.expires_at)

on_acquire-elsewhere :
    (l : Lease) (j : RunJournal) (e : Execution) (answer : Result Error (Lease × Bool))
    → trim_space (durable_run_lease_name j.exec_id) ≢ l.name
    → IsRowElsewhere l (on_acquire j e answer)
on_acquire-elsewhere l j e (ok (m, true)) away = away
on_acquire-elsewhere l j e (ok (m, false)) away = tt
on_acquire-elsewhere l j e (err x) away = tt

module _ (l : Lease) (cfg : LeaseConfig) where
  abbrev IsLeft : RowEnd × MemoryStore → Type 0
  IsLeft a = IsRowElsewhere l a.0 × IsHeld l a.1

  module _ (turn : Turn) (j : RunJournal) where
    refused_run :
        (e : Execution) (s : MemoryStore)
        → IsHeld l s
        → acquire_lease turn.at_acquire.0
            (durable_run_lease_name j.exec_id)
            cfg.holder
            cfg.ttl
            turn.at_acquire.1
            s
          ≡ (ok (l, false), s)
        → IsLeft (acquire_run cfg turn j e s)
    refused_run e s held refused = rw (acquire_run, refused) (tt, held)

    acquire_run-elsewhere :
        (e : Execution) (s : MemoryStore)
        → IsHeld l s
        → turn.at_acquire.1 ≤ l.expires_at
        → IsLeft (acquire_run cfg turn j e s)
    unfolding step run acquire_lease
    acquire_run-elsewhere e s held early =
        let (ctx, now) = turn.at_acquire in
        let name = durable_run_lease_name j.exec_id in
        let kept = step_keeps l s held (acquire ctx name cfg.holder cfg.ttl now) early in
        elim (Result-cases (lease_args ctx name cfg.holder cfg.ttl)) [
          | inl (x, bad) ↦ rw bad (tt, held)
          | inr (a, good) ↦ elim (Bool-cases (trim_space name == l.name)) [
            | inr away ↦ (
              on_acquire-elsewhere l j e _
                  (λ same. ground (arith, away, same, eq_iff (trim_space name) l.name)),
              kept,
            )
            | inl same ↦
                let named = (eq_iff (trim_space name) l.name).0 same in
                refused_run e s held
                  (held_lease_excludes l [] s ctx name cfg.holder cfg.ttl now a held tt named early
                    good).1
          ]
        ]

    on_claimable-elsewhere :
        (s : MemoryStore) (answer : Result Error (Option Execution))
        → IsHeld l s
        → turn.at_acquire.1 ≤ l.expires_at
        → IsLeft (on_claimable cfg turn j s answer)
    on_claimable-elsewhere s (err x) held early = (tt, held)
    on_claimable-elsewhere s (ok none) held early = (tt, held)
    on_claimable-elsewhere s (ok (some e)) held early = elim (Bool-cases turn.worker_free) [
      | inl free ↦ rw free (acquire_run-elsewhere e s held early)
      | inr busy ↦ rw busy (tt, held)
    ]

    scan_row-elsewhere :
        (s : MemoryStore)
        → IsHeld l s
        → turn.at_acquire.1 ≤ l.expires_at
        → IsLeft (scan_row cfg turn j s)
    unfolding scan_row
    scan_row-elsewhere s held early = elim (Bool-cases (is_done turn.at_check)) [
      | inl over ↦ rw over (tt, held)
      | inr alive ↦ rw alive (on_claimable-elsewhere s _ held early)
    ]

  module _ (turns : RunJournal → Turn) (live : (j : RunJournal) → IsLiveAt l (turns j)) where
    abbrev AreLeft : List Claim × MemoryStore → Type 0
    AreLeft a = All (IsElsewhere l) a.0 × IsHeld l a.1

    with_rest-elsewhere :
        (a : RowEnd × MemoryStore) (rest : MemoryStore → List Claim × MemoryStore)
        → IsLeft a
        → ((s : MemoryStore) → IsHeld l s → AreLeft (rest s))
        → AreLeft (with_rest cfg turns a rest)
    with_rest-elsewhere (returned, s) rest left more = (tt, left.1)
    with_rest-elsewhere (passed, s) rest left more = more s left.1
    with_rest-elsewhere (claimed c, s) rest left more =
        ((left.0, (more s left.1).0), (more s left.1).1)

    scan_rows-elsewhere :
        (js : List RunJournal) (s : MemoryStore) → IsHeld l s → AreLeft (scan_rows cfg turns js s)
    unfolding scan_rows
    scan_rows-elsewhere [] s held = (tt, held)
    scan_rows-elsewhere (j ∷ js) s held =
        with_rest-elsewhere (scan_row cfg (turns j) j ((turns j).meanwhile s))
          (scan_rows cfg turns js) (scan_row-elsewhere (turns j) j _ ((live j).0 s held) (live j).1)
          (λ t. scan_rows-elsewhere js t)

-- A scan never takes over the run of a live replica: while a lease stands in its row, the others keep
-- it there between the rows of the scan, and its expiry has not passed at any row's acquisition, no
-- run that the scan claims has the name of that lease, and the lease still stands at the end.
pub live_run_not_claimed :
    (l : Lease) (cfg : LeaseConfig) (turns : RunJournal → Turn) (ctx : Context) (s : MemoryStore)
    → IsHeld l s
    → ((j : RunJournal) → IsLiveAt l (turns j))
    → All (IsElsewhere l) (recover_durable_runs_scan cfg turns ctx s).0
      × IsHeld l (recover_durable_runs_scan cfg turns ctx s).1
unfolding recover_durable_runs_scan
live_run_not_claimed l cfg turns ctx s held live = elim (Result-cases (list_run_journals ctx s).0) [
  | inl (x, bad) ↦ rw (bad, recover_durable_runs_scan) (tt, held)
  | inr (js, listed) ↦
      rw (listed, recover_durable_runs_scan) (scan_rows-elsewhere l cfg turns live js s held)
]
