-- ===== src/Uploads/Persist/Frame.antt =====
-- Storing the bytes of a chunk touches the store, the queue, the results, the pool and the metrics,
-- and nothing else: not the database, the session, the limiter or the audit log.
use distributed_file_service.Prelude.{
  Bool-cases, Option, inl, inr, ltb, none, refl, some, suc, zero, ℕ, ◌+◌, ◌∙◌, ◌≡◌,
}
use distributed_file_service.Text.{Text}
use distributed_file_service.Exec.{
  Error, Exec, Outcome, http, modify, ok, pure, raised, try_finally, unhandled, zoom,
}
use distributed_file_service.Exec.Keeps.{
  Keeps, Keeps-bind, Keeps-finally, Keeps-gets, Keeps-if, keeps_rules,
}
use distributed_file_service.Worker.{BackpressureExecutor, on_end, on_start, submit}
use distributed_file_service.DurableQueue.{Results, TaskResult, failure, poll, success}
use distributed_file_service.World.{Service, World, in_store, or_raise}
use distributed_file_service.Uploads.Persist.{
  ChunkWrite, Schedule, Stored, after_attempt, in_queue, in_results, outcome_of, persist_chunk,
  persist_chunk_via_durable_queue, persist_once, persist_with_retries, run_on_pool, wait_result,
}

module _ {St Q : Type 0} where
  pub record SameData (v w : World St Q) : Type 0 where
    pub db : w.db ≡ v.db
    pub session : w.session ≡ v.session
    pub limiter : w.limiter ≡ v.limiter
    pub now : w.now ≡ v.now
    pub audit : w.audit ≡ v.audit

  pub SameData-refl : (w : World St Q) → SameData w w
  SameData-refl w = record { db = refl; session = refl; limiter = refl; now = refl; audit = refl }

  pub SameData-trans : {a b c : World St Q} → SameData a b → SameData b c → SameData a c
  SameData-trans p q = record {
    db = q.db ∙ p.db;
    session = q.session ∙ p.session;
    limiter = q.limiter ∙ p.limiter;
    now = q.now ∙ p.now;
    audit = q.audit ∙ p.audit;
  }

module _ {St Q : Type 0} {w₀ : World St Q} where
  pub Keeps-in_store : {A : Type 0} (m : Exec St A) → Keeps (SameData w₀) (in_store {Q = Q} m)
  Keeps-in_store m = record {
    run = λ s h. record {
      db = h.db;
      session = h.session;
      limiter = h.limiter;
      now = h.now;
      audit = h.audit;
    };
  }

  pub Keeps-in_queue : {A : Type 0} (m : Exec Q A) → Keeps (SameData w₀) (in_queue {St = St} m)
  Keeps-in_queue m = record {
    run = λ s h. record {
      db = h.db;
      session = h.session;
      limiter = h.limiter;
      now = h.now;
      audit = h.audit;
    };
  }

  pub Keeps-on_executor :
      {A : Type 0} (m : Exec BackpressureExecutor A)
      → Keeps (SameData w₀) (zoom (λ w. w.executor) (λ b w. record w { executor = b }) m)
  Keeps-on_executor m = record {
    run = λ s h. record {
      db = h.db;
      session = h.session;
      limiter = h.limiter;
      now = h.now;
      audit = h.audit;
    };
  }

  pub Keeps-in_results : (f : Results → Results) → Keeps (SameData w₀) (modify (in_results f))
  Keeps-in_results f = record {
    run = λ s h. record {
      db = h.db;
      session = h.session;
      limiter = h.limiter;
      now = h.now;
      audit = h.audit;
    };
  }

  pub Keeps-executor :
      (f : BackpressureExecutor → BackpressureExecutor)
      → Keeps (SameData w₀) (modify (λ w. record w { executor = f w.executor }))
  Keeps-executor f = record {
    run = λ s h. record {
      db = h.db;
      session = h.session;
      limiter = h.limiter;
      now = h.now;
      audit = h.audit;
    };
  }

  pub Keeps-or_raise : {A : Type 0} (o : Option A) (e : Error) → Keeps (SameData w₀) (or_raise o e)
  Keeps-or_raise none e = record { run = λ s h. h }
  Keeps-or_raise (some a) e = record { run = λ s h. h }

  pub ruleset frame_rules = (
    keeps_rules, Keeps-in_store, Keeps-in_queue, Keeps-on_executor, Keeps-in_results,
    Keeps-executor, Keeps-or_raise,
  )

  persist_chunk-frame :
      (v : Service St Q) (c : ChunkWrite) → Keeps (SameData w₀) (persist_chunk v c)
  unfolding persist_chunk
  persist_chunk-frame v c = search frame_rules

  on_no_result :
      (later : Exec (World St Q) (Option TaskResult)) (o : Option TaskResult)
      → Keeps (SameData w₀) later
      → Keeps (SameData w₀) (elim o [ some r ↦ pure (some r) | none ↦ later ])
  on_no_result later (some r) k = search frame_rules
  on_no_result later none k = k

  wait_result-frame :
      (polls : ℕ) (id : Text) → Keeps (SameData w₀) (wait_result {St = St} {Q = Q} polls id)
  unfolding wait_result
  wait_result-frame zero id = search frame_rules
  wait_result-frame (suc polls) id =
      Keeps-bind _ _ (Keeps-gets (λ w. (poll id w.results).0)) λ found.
        Keeps-bind _ _ (Keeps-in_results (λ r. (poll id r).1))
          λ _. on_no_result (wait_result polls id) found (wait_result-frame polls id)

  outcome_of-frame : (o : Option TaskResult) → Keeps (SameData w₀) (outcome_of o)
  outcome_of-frame none = search frame_rules
  outcome_of-frame (some (success key etag)) = search frame_rules
  outcome_of-frame (some (failure error)) = search frame_rules

  via_queue-frame :
      (v : Service St Q) (schedule : Schedule) (attempt : ℕ) (c : ChunkWrite)
      → Keeps (SameData w₀) (persist_chunk_via_durable_queue v schedule attempt c)
  unfolding persist_chunk_via_durable_queue
  via_queue-frame v schedule attempt c = search (frame_rules, wait_result-frame, outcome_of-frame)

  Keeps-finally_executor :
      {A : Type 0} (m : Exec (World St Q) A) (f : BackpressureExecutor → BackpressureExecutor)
      → Keeps (SameData w₀) m
      → Keeps (SameData w₀) (try_finally m (λ w. record w { executor = f w.executor }))
  Keeps-finally_executor m f k =
      Keeps-finally m (λ w. record w { executor = f w.executor }) k
        λ s h. record {
          db = h.db;
          session = h.session;
          limiter = h.limiter;
          now = h.now;
          audit = h.audit;
        }

  run_on_pool-frame :
      {A : Type 0} (m : Exec (World St Q) A)
      → Keeps (SameData w₀) m
      → Keeps (SameData w₀) (run_on_pool m)
  unfolding run_on_pool
  run_on_pool-frame m k =
      Keeps-bind _ _ (Keeps-on_executor submit)
        λ _. Keeps-bind _ _ (Keeps-executor on_start) (λ _. Keeps-finally_executor m on_end k)

  persist_once-frame :
      (v : Service St Q) (schedule : Schedule) (attempt : ℕ) (c : ChunkWrite)
      → Keeps (SameData w₀) (persist_once v schedule attempt c)
  unfolding persist_once
  persist_once-frame v schedule attempt c =
      Keeps-if _ _ _ (λ _. via_queue-frame v schedule attempt c)
        (λ _. run_on_pool-frame _ (persist_chunk-frame v c))

  after_attempt-frame :
      (max_retries retries : ℕ) (again : Exec (World St Q) (Stored × ℕ))
      (p : Outcome Stored × World St Q)
      → Keeps (SameData w₀) again
      → SameData w₀ p.1
      → SameData w₀ (after_attempt max_retries retries again p).1
  unfolding after_attempt
  after_attempt-frame m r again (ok stored, w) k h = h
  after_attempt-frame m r again (raised (http e), w) k h = h
  after_attempt-frame m r again (raised (unhandled t), w) k h = elim (Bool-cases (ltb m (r + 1))) [
    | inl e ↦ rw e (record {
      db = h.db;
      session = h.session;
      limiter = h.limiter;
      now = h.now;
      audit = h.audit;
    })
    | inr e ↦ rw e (
        k.run _ (record {
          db = h.db;
          session = h.session;
          limiter = h.limiter;
          now = h.now;
          audit = h.audit;
        }))
  ]

  -- However the attempts go, on the pool or through the queue.
  pub persist_with_retries-frame :
      (fuel : ℕ) (v : Service St Q) (schedule : Schedule) (retries : ℕ) (c : ChunkWrite)
      → Keeps (SameData w₀) (persist_with_retries fuel v schedule retries c)
  unfolding persist_with_retries
  persist_with_retries-frame zero v schedule retries c = record { run = λ s h. h }
  persist_with_retries-frame (suc fuel) v schedule retries c =
      let ih = persist_with_retries-frame fuel v schedule (retries + 1) c in
      record {
        run = λ s h.
            after_attempt-frame _ _ _ _ ih ((persist_once-frame v schedule retries c).run s h);
      }
