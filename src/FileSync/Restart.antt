-- ===== src/FileSync/Restart.antt =====
-- internal/p2p/file_sync.go: starting and stopping more than once.
use syncmesh.Common.{
  ◌≡◌, refl, ◌⊎◌, inl, inr, Bool, true, false, none, some, List, [], ◌∷◌, ◌++◌, arith, Bool-cases,
}
use syncmesh.FileSync.State.{FileWorker, Peer}
use syncmesh.FileSync.Workers.{
  worker_count, new_workers, close_all, start_workers, start, stop_workers, stop,
}

-- Some worker's stop channel is closed.
abbrev pub HasClosed : List FileWorker → Type 0
HasClosed [] = ⊥
HasClosed (w ∷ ws) = (w.stop_closed ≡ true) ⊎ HasClosed ws

abbrev pub AllClosed : List FileWorker → Type 0
AllClosed [] = Unit
AllClosed (w ∷ ws) = (w.stop_closed ≡ true) × AllClosed ws

close_all-cases :
    (ws : List FileWorker)
    → HasClosed ws × (close_all ws ≡ none)
      ⊎ (¬ HasClosed ws)
        × ((closed : List FileWorker) × (close_all ws ≡ some closed) × AllClosed closed)
unfolding close_all
close_all-cases [] = inr (λ h. h, ([], refl, tt))
close_all-cases (w ∷ ws) = elim (Bool-cases w.stop_closed) [
  | inl closed ↦ inl (inl closed, rw closed refl)
  | inr is_open ↦ elim (close_all-cases ws) [
    | inl (h, e) ↦ inl (inr h, rw (is_open, e) refl)
    | inr (h, (closed, e, all)) ↦ inr (
      λ p. elim p [ inl q ↦ ground arith | inr q ↦ h q ],
      (record w { stop_closed = true } ∷ closed, rw (is_open, e) refl, (refl, all)),
    )
  ]
]

module _ {Fs : Type 0} where
  -- Stopping a peer that runs closes every worker's stop channel, or panics: exactly if one of them
  -- is closed already.
  pub stop-panics_iff :
      (f : Peer Fs)
      → f.running ≡ true
      → HasClosed f.workers × (stop f ≡ none)
        ⊎ (¬ HasClosed f.workers)
          × ((stopped : Peer Fs) × (stop f ≡ some stopped)
              × (stopped.running ≡ false)
              × AllClosed stopped.workers)
  unfolding stop stop_workers
  stop-panics_iff f runs = elim (close_all-cases f.workers) [
    | inl (h, e) ↦ inl (h, simp (runs, e) refl)
    | inr (h, (closed, e, all)) ↦ inr (
      h,
      (
        record f { running = false; cancelled = true; workers = closed },
        simp (runs, e) refl,
        refl,
        all,
      ),
    )
  ]

  -- A protocol that is started, stopped and started again panics when it is stopped again: the
  -- workers of the first run are still in the list.
  pub second_stop_panics :
      (f : Peer Fs)
      → f.running ≡ false
      → f.workers ≡ []
      → (first : Peer Fs) × (stopped : Peer Fs) × (second : Peer Fs) × (start f ≡ some first)
        × (stop first ≡ some stopped)
        × (start stopped ≡ some second)
        × (stop second ≡ none)
  unfolding start start_workers stop stop_workers close_all new_workers worker_count
  second_stop_panics f idle fresh = (
    record f { running = true; cancelled = false; workers = new_workers 0 worker_count },
    record f { running = false; cancelled = true; workers = three true },
    record f {
      running = true;
      cancelled = false;
      workers = three true ++ new_workers 0 worker_count;
    },
    simp (idle, fresh) refl,
    refl,
    refl,
    refl,
  )
    where
      three : Bool → List FileWorker
      three b =
          record { id = 0; stop_closed = b }
          ∷ record { id = 1; stop_closed = b }
          ∷ record { id = 2; stop_closed = b }
          ∷ []
