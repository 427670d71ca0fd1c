-- ===== src/Monitoring/Counting.antt =====
-- internal/monitoring/service.go: the statistics count the calls that record.
use syncmesh.Common.{
  ◌≡◌, refl, ◌∙◌, ap, ℕ, suc, ℤ, pos, String, Bool, true, false, not, inl, inr, Bool-cases, List,
  [], ◌∷◌, ◌==◌, wrap_int64, wrap_int64-add, wrap_int64-zero, Duration, Time, if◌then◌else◌, arith,
}
use syncmesh.Config.{MonitoringConfig}
use syncmesh.Monitoring.Checks.{MemStats, new_service}
use syncmesh.Monitoring.State.{
  register_health_check, Statistics, Service, new_statistics, increment, sampled,
  record_http_request, record_sync_operation, record_error, update_queue_size,
  update_active_connections, update_cluster_metrics, collect_system_metrics,
}

-- A call of the rest of the program, and the calls since the service was made, newest first.
pub data Call : Type 0 where
  http_request : String → String → String → Duration → Call
  sync_operation : String → String → Duration → Call
  error : String → String → Call
  queue_size connections : ℤ → Call
  cluster_metrics : ℤ → Bool → Call
  system_metrics : ℕ → ℕ → Call

module _ {M : Type 0} where
  unfoldable pub apply_call : Call → Service M → Service M
  apply_call (Call.http_request method endpoint status d) s =
      record_http_request method endpoint status d s
  apply_call (Call.sync_operation operation status d) s = record_sync_operation operation status d s
  apply_call (Call.error kind component) s = record_error kind component s
  apply_call (Call.queue_size n) s = update_queue_size n s
  apply_call (Call.connections n) s = update_active_connections n s
  apply_call (Call.cluster_metrics n leads) s = update_cluster_metrics n leads s
  apply_call (Call.system_metrics goroutines alloc) s = collect_system_metrics goroutines alloc s

  unfoldable pub apply_calls : List Call → Service M → Service M
  apply_calls [] s = s
  apply_calls (c ∷ calls) s = apply_call c (apply_calls calls s)

abbrev pub is_request : Call → Bool
is_request c = elim c [ Call.http_request _ _ _ _ ↦ true | _ ↦ false ]

abbrev pub is_success : Call → Bool
is_success c = elim c [ Call.sync_operation _ status _ ↦ status == "success" | _ ↦ false ]

abbrev pub is_failure : Call → Bool
is_failure c = elim c [ Call.sync_operation _ status _ ↦ not (status == "success") | _ ↦ false ]

abbrev pub is_error : Call → Bool
is_error c = elim c [ Call.error _ _ ↦ true | _ ↦ false ]

abbrev pub count : (Call → Bool) → List Call → ℕ
count chosen [] = 0
count chosen (c ∷ calls) = let rest = count chosen calls in if chosen c then suc rest else rest

-- What the statistics should be after the calls.
abbrev pub counted : Time → List Call → Statistics
counted now calls = record {
  start_time = now;
  total_requests = wrap_int64 (pos (count is_request calls));
  successful_syncs = wrap_int64 (pos (count is_success calls));
  failed_syncs = wrap_int64 (pos (count is_failure calls));
  files_processed = pos 0;
  bytes_transferred = pos 0;
  error_count = wrap_int64 (pos (count is_error calls));
}

increment_wrapped : (n : ℕ) → increment (wrap_int64 (pos n)) ≡ wrap_int64 (pos (suc n))
unfolding increment
increment_wrapped n = wrap_int64-add n 1 ∙ ap (λ (m : ℕ). wrap_int64 (pos m)) (omega arith)

module _ {M : Type 0} where
  apply_call-counted :
      (now : Time) (calls : List Call) (c : Call) (s : Service M)
      → s.stats ≡ counted now calls
      → (apply_call c s).stats ≡ counted now (c ∷ calls)
  unfolding apply_call record_http_request record_sync_operation record_error update_queue_size
      update_active_connections update_cluster_metrics collect_system_metrics sampled
  apply_call-counted now calls (Call.http_request method endpoint status d) s e =
      rw (e, increment_wrapped (count is_request calls)) refl
  apply_call-counted now calls (Call.sync_operation operation status d) s e =
      elim (Bool-cases (status == "success")) [
        | inl t ↦ rw (e, t, increment_wrapped (count is_success calls)) refl
        | inr t ↦ rw (e, t, increment_wrapped (count is_failure calls)) refl
      ]
  apply_call-counted now calls (Call.error kind component) s e =
      rw (e, increment_wrapped (count is_error calls)) refl
  apply_call-counted now calls (Call.queue_size n) s e = e
  apply_call-counted now calls (Call.connections n) s e = e
  apply_call-counted now calls (Call.cluster_metrics n leads) s e = e
  apply_call-counted now calls (Call.system_metrics goroutines alloc) s e = e

  apply_calls-counted :
      (now : Time) (calls : List Call) (s : Service M)
      → s.stats ≡ new_statistics now
      → (apply_calls calls s).stats ≡ counted now calls
  unfolding apply_calls new_statistics
  apply_calls-counted now [] s e = rw (e, wrap_int64-zero) refl
  apply_calls-counted now (c ∷ calls) s e =
      apply_call-counted now calls c (apply_calls calls s) (apply_calls-counted now calls s e)

module _ (print : ℕ → String) {M : Type 0} (memory : M → MemStats) (goroutines : M → ℕ) where
  -- Whatever is recorded since the service was made, its statistics are the numbers of HTTP requests,
  -- of synchronisations that succeeded and that did not, and of errors, each as an int64; the counts of
  -- files and bytes stay 0.
  pub new_service-counted :
      (config : MonitoringConfig) (now : Time) (calls : List Call)
      → (apply_calls calls (new_service print memory goroutines config now)).stats
        ≡ counted now calls
  unfolding new_service register_health_check
  new_service-counted config now calls =
      apply_calls-counted now calls (new_service print memory goroutines config now) refl
