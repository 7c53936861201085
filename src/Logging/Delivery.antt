-- ===== src/Logging/Delivery.antt =====
-- What the log queue of frontend/src/lib/logger.ts does with a batch that was not delivered.
use mathlib.Core.List.{append-nil}
use jolarca.Common.{
  ℕ, ◌+◌, ◌-◌, ◌≤◌, ◌≡◌, refl, sym, ap, ◌∙◌, false, ◌⊎◌, inl, inr, none, some, List, [], ◌∷◌, ◌++◌,
  ltb, arith, Bool-cases,
}
use jolarca.Common.Lists.{
  pick, pick-append, pick-length, length, drop, length-append, length-drop, take, drop-append,
  take-drop,
}
use jolarca.Logging.Queue.{requeue, flush_logs, settle_flush}
use jolarca.Logging.State.{LogRecord, Logger, Transport, post}

-- A failed batch goes back in front of the newer records. Those all stay; of the batch its newest
-- records stay, and none is lost unless the queue is then full.
pub requeue-newest :
    (batch queue : List LogRecord)
    → length queue ≤ 100
    → (lost : List LogRecord) × (kept : List LogRecord) × (batch ≡ lost ++ kept)
      × (requeue batch queue ≡ kept ++ queue)
      × ((lost ≡ []) ⊎ (length (requeue batch queue) ≡ 100))
unfolding requeue
requeue-newest batch queue h = elim (Bool-cases (ltb 100 (length (batch ++ queue)))) [
  | inl over ↦
      let excess = length (batch ++ queue) - 100 in
      let in_batch : excess ≤ length batch = omega (arith, length-append batch queue) in
      (
        take excess batch,
        drop excess batch,
        take-drop excess batch,
        rw (over, requeue) (drop-append excess batch queue in_batch),
        inr (rw (over, requeue) (ground (arith, length-drop excess (batch ++ queue)))),
      )
  | inr fits ↦ ([], batch, refl, rw (fits, requeue) refl, inl refl)
]

requeue_fits :
    (batch queue : List LogRecord)
    → length batch + length queue ≤ 100
    → requeue batch queue ≡ batch ++ queue
unfolding requeue
requeue_fits batch queue h = ground (arith, length-append batch queue)

requeue-nil : (batch : List LogRecord) → length batch ≤ 100 → requeue batch [] ≡ batch
requeue-nil batch h = requeue_fits batch [] (omega arith) ∙ append-nil batch

flush_logs-nil :
    (transport : Transport) (logger : Logger)
    → logger.queue ≡ []
    → flush_logs transport logger ≡ logger
unfolding flush_logs
flush_logs-nil transport logger q = rw (q, flush_logs) refl

flush_logs-post :
    (logger : Logger) (r : LogRecord) (records : List LogRecord)
    → logger.queue ≡ r ∷ records
    → flush_logs post logger
      ≡ record logger { queue = []; in_flight = logger.in_flight ++ (r ∷ records) ∷ [] }
unfolding flush_logs
flush_logs-post logger r records q = rw (q, flush_logs) refl

settle_flush-some :
    (n : ℕ) (logger : Logger) (batch : List LogRecord) (others : List (List LogRecord))
    → pick n logger.in_flight ≡ some (batch, others)
    → settle_flush n false logger
      ≡ record logger { in_flight = others; queue = requeue batch logger.queue }
unfolding settle_flush
settle_flush-some n logger batch others found = rw (found, settle_flush) refl

settle_flush-none :
    (n : ℕ) (logger : Logger)
    → pick n logger.in_flight ≡ none
    → settle_flush n false logger ≡ logger
unfolding settle_flush
settle_flush-none n logger found = rw (found, settle_flush) refl

list_cases : {A : Type 0} (xs : List A) → (xs ≡ []) ⊎ ((x : A) × (rest : List A) × (xs ≡ x ∷ rest))
list_cases [] = inl refl
list_cases (x ∷ xs) = inr (x, xs, refl)

-- A flush whose answer fails at once leaves the logger as it was.
pub settle_flush-flush_logs :
    (logger : Logger)
    → length logger.queue ≤ 100
    → settle_flush (length logger.in_flight) false (flush_logs post logger) ≡ logger
settle_flush-flush_logs logger h = elim (list_cases logger.queue) [
  | inl q ↦
      rw (flush_logs-nil post logger q) (settle_flush-none _ logger (pick-length logger.in_flight))
  | inr (r, records, q) ↦
      rw
        (
          flush_logs-post logger r records q,
          settle_flush-some (length logger.in_flight)
              (record logger { queue = []; in_flight = logger.in_flight ++ (r ∷ records) ∷ [] })
              (r ∷ records) logger.in_flight (pick-append logger.in_flight (r ∷ records)),
          requeue-nil (r ∷ records) (ground (arith, ap length q)),
        )
        (ap (λ queue. record logger { queue = queue }) (sym q))
]

-- Of two batches that fail in the order in which they were sent, the newer one comes first.
pub settle_flush-reordered :
    (logger : Logger) (first second : List LogRecord)
    → length first + length second ≤ 100
    → logger.in_flight ≡ first ∷ second ∷ []
    → logger.queue ≡ []
    → (settle_flush 0 false (settle_flush 0 false logger)).queue ≡ second ++ first
unfolding pick
settle_flush-reordered logger first second h e q =
    rw
      (
        settle_flush-some 0 logger first (second ∷ []) (rw (e, pick) refl),
        settle_flush-some 0
            (record logger { in_flight = second ∷ []; queue = requeue first logger.queue }) second
            [] refl,
        q,
        requeue-nil first (omega arith),
      )
      (requeue_fits second first (omega arith))
