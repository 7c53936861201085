-- ===== src/Admin/Answers.antt =====
-- How the answers that the page of frontend/src/components/client/admin/listing-queue.tsx waits for
-- keep its calls apart.
use jolarca.Common.{ℕ, zero, suc, ◌≡◌, refl, Bool, true, false, not, ◌&&◌, List, [], ◌∷◌, if-either}
use jolarca.Common.Lists.{All, pick}
use jolarca.Errors.{Result, ok, throw}
use jolarca.Cart.Item.{is_contract_pending}
use jolarca.Admin.Queues.{ListingQueueRow}
use jolarca.Admin.Moderation.{
  Mutation, decide, correct, Waiting, queue, mutation, Moderation, end_load, end_mutation,
  settle_queue, settle_mutation,
}
use jolarca.Admin.Turns.{is_loading, IsTurn, IsReasoned, IsOrderly}

orderly :
    (waiting : List Waiting) (s : Moderation)
    → s.in_flight ≡ waiting
    → IsTurn waiting s
    → All IsReasoned s.requested
    → IsOrderly s
orderly waiting s e turn r = record { waiting = waiting; waits = e; turn = turn; reasoned = r }

end_load-IsOrderly :
    (after : Bool) (answer : Result (List ListingQueueRow)) (s : Moderation)
    → s.in_flight ≡ []
    → s.busy && not after ≡ false
    → All IsReasoned s.requested
    → IsOrderly (end_load after answer s)
end_load-IsOrderly after (ok rows) s e free r = record {
  waiting = [];
  waits = e;
  turn = (refl, free);
  reasoned = r;
}
end_load-IsOrderly after (throw refusal) s e free r = record {
  waiting = [];
  waits = e;
  turn =
      (if-either (λ state. is_loading state ≡ false) (is_contract_pending refusal) refl refl, free);
  reasoned = r;
}

pub settle_queue-waiting :
    (n : ℕ) (answer : Result (List ListingQueueRow)) (s : Moderation) (waiting : List Waiting)
    → s.in_flight ≡ waiting
    → IsTurn waiting s
    → All IsReasoned s.requested
    → IsOrderly (settle_queue (pick n waiting) answer s)
unfolding pick
settle_queue-waiting n answer s [] e turn r = orderly [] s e turn r
settle_queue-waiting zero answer s (queue true ∷ []) e (loads, busy) r =
    end_load-IsOrderly true answer (record s { in_flight = [] }) refl (rw busy refl) r
settle_queue-waiting zero answer s (queue false ∷ []) e (loads, free, p, q) r =
    end_load-IsOrderly false answer (record s { in_flight = [] }) refl (rw free refl) r
settle_queue-waiting (suc n) answer s (queue true ∷ []) e turn r =
    orderly (queue true ∷ []) s e turn r
settle_queue-waiting (suc n) answer s (queue false ∷ []) e turn r =
    orderly (queue false ∷ []) s e turn r
settle_queue-waiting zero answer s (mutation m ∷ []) e turn r = orderly (mutation m ∷ []) s e turn r
settle_queue-waiting (suc n) answer s (mutation m ∷ []) e turn r =
    orderly (mutation m ∷ []) s e turn r
settle_queue-waiting n answer s (first ∷ (second ∷ others)) e turn r = absurd turn

end_mutation-IsOrderly :
    (request : Mutation) (answer : Result (Unit {0})) (s : Moderation)
    → s.in_flight ≡ []
    → is_loading s.state ≡ false
    → s.busy ≡ true
    → All IsReasoned s.requested
    → IsOrderly (end_mutation request answer s)
end_mutation-IsOrderly (decide id decision reason) (ok done) s e calm busy r = record {
  waiting = queue true ∷ [];
  waits = rw e refl;
  turn = (refl, busy);
  reasoned = r;
}
end_mutation-IsOrderly (correct id body) (ok done) s e calm busy r = record {
  waiting = queue true ∷ [];
  waits = rw e refl;
  turn = (refl, busy);
  reasoned = r;
}
end_mutation-IsOrderly request (throw refusal) s e calm busy r = record {
  waiting = [];
  waits = e;
  turn = (calm, refl);
  reasoned = r;
}

pub settle_mutation-waiting :
    (n : ℕ) (answer : Result (Unit {0})) (s : Moderation) (waiting : List Waiting)
    → s.in_flight ≡ waiting
    → IsTurn waiting s
    → All IsReasoned s.requested
    → IsOrderly (settle_mutation (pick n waiting) answer s)
unfolding pick
settle_mutation-waiting n answer s [] e turn r = orderly [] s e turn r
settle_mutation-waiting zero answer s (queue true ∷ []) e turn r =
    orderly (queue true ∷ []) s e turn r
settle_mutation-waiting zero answer s (queue false ∷ []) e turn r =
    orderly (queue false ∷ []) s e turn r
settle_mutation-waiting (suc n) answer s (queue true ∷ []) e turn r =
    orderly (queue true ∷ []) s e turn r
settle_mutation-waiting (suc n) answer s (queue false ∷ []) e turn r =
    orderly (queue false ∷ []) s e turn r
settle_mutation-waiting zero answer s (mutation m ∷ []) e (calm, busy) r =
    end_mutation-IsOrderly m answer (record s { in_flight = [] }) refl calm busy r
settle_mutation-waiting (suc n) answer s (mutation m ∷ []) e turn r =
    orderly (mutation m ∷ []) s e turn r
settle_mutation-waiting n answer s (first ∷ (second ∷ others)) e turn r = absurd turn
