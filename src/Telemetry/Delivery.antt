-- ===== src/Telemetry/Delivery.antt =====
-- The queue of usage events and its lock, over runs of calls and flushes.
use mathlib.Core.List.{append_assoc, append-nil}
use synthia_mqtt.Prelude.{
  ℕ, suc, ◌+◌, ◌≤◌, ◌≡◌, refl, ap, sym, ◌∙◌, String, Bool, true, false, List, [], ◌∷◌, ◌++◌, arith,
  length, length-append, ltb, ◌==◌, Bool-cases, ◌&&◌, inl, inr,
}
use synthia_mqtt.Json.{pos, Environment}
use synthia_mqtt.Traces.{newest}
use synthia_mqtt.Telemetry.{
  Usage, Reporter, Core, enabled, saturate, usage_event, enqueue_usage, core_base_url, post_all,
  flush_once, Line, enqueue,
}

-- An operation of the reporter: a call of `enqueue_usage`, with its time, or one of
-- `_flush_once`, with what the core answers in it.
pub data Operation : Type 0 where
  usage : String → String → String → ℕ → Operation
  flush : Core → Operation

-- One operation after the other.
unfoldable pub perform_all : Environment → Reporter → List Operation → Line → Line
perform_all env reporter [] line = line
perform_all env reporter (usage timestamp consumer operation count ∷ rest) line =
    perform_all env reporter rest (enqueue env reporter timestamp consumer operation count line)
perform_all env reporter (flush core ∷ rest) line =
    perform_all env reporter rest (flush_once env core line)

-- The events of the calls, in their order.
unfoldable pub events_of : Reporter → List Operation → List Usage
events_of reporter [] = []
events_of reporter (usage timestamp consumer operation count ∷ rest) =
    usage_event reporter timestamp consumer operation count ∷ events_of reporter rest
events_of reporter (flush core ∷ rest) = events_of reporter rest

post_all_keeps :
    (core : Core) (posted queue : List Usage)
    → ((post_all core posted queue).posted ++ (post_all core posted queue).queue ≡ posted ++ queue)
      × (length (post_all core posted queue).queue ≤ length queue)
unfolding post_all
post_all_keeps core posted [] = (refl, omega arith)
post_all_keeps core posted (event ∷ rest) =
    let (same, fits) = post_all_keeps core (posted ++ (event ∷ [])) rest in
    elim (Bool-cases (core posted event)) [
      | inl taken ↦ rw taken (same ∙ append_assoc posted (event ∷ []) rest, omega (arith, fits))
      | inr refused ↦ rw refused (refl, omega arith)
    ]

-- The core takes every event of the queue.
abbrev pub takes_all : Core → List Usage → List Usage → Bool
takes_all core posted [] = true
takes_all core posted (event ∷ rest) =
    core posted event && takes_all core (posted ++ (event ∷ [])) rest

locked-post_all :
    (core : Core) (posted queue : List Usage)
    → (post_all core posted queue).locked ≡ takes_all core posted queue
unfolding post_all
locked-post_all core posted [] = refl
locked-post_all core posted (event ∷ rest) = elim (Bool-cases (core posted event)) [
  | inl taken ↦ rw taken (locked-post_all core (posted ++ (event ∷ [])) rest)
  | inr refused ↦ rw refused
]

-- While reporting is on and the address of the core is set, a flush that finds the lock free
-- never returns, and keeps the lock, exactly when the core takes every event of the queue, so also
-- when the queue is empty.
pub locked-flush_once :
    (env : Environment) (core : Core) (line : Line)
    → enabled env ≡ true
    → (core_base_url env == "") ≡ false
    → line.locked ≡ false
    → (flush_once env core line).locked ≡ takes_all core line.posted line.queue
unfolding flush_once
locked-flush_once env core line on set free =
    rw (on, set, free) (locked-post_all core line.posted line.queue)

pub saturate_fits :
    {A : Type 0} (n : ℕ) (queue : List A)
    → length queue ≤ suc n
    → saturate (pos (suc n)) queue ≡ queue
unfolding saturate newest
saturate_fits n queue h = elim (Bool-cases (ltb (suc n) (length queue))) [
  | inl more ↦ absurd (ground arith)
  | inr fits ↦ rw fits
]

module _ (env : Environment) (reporter : Reporter) (n : ℕ) (on : enabled env ≡ true)
    (room : reporter.max_queue ≡ pos (suc n)) where
  enqueue_fits :
      (timestamp consumer operation : String) (count : ℕ) (queue : List Usage)
      → length queue + 1 ≤ suc n
      → enqueue_usage env reporter timestamp consumer operation count queue
        ≡ queue ++ (usage_event reporter timestamp consumer operation count ∷ [])
  unfolding enqueue_usage usage_event
  enqueue_fits timestamp consumer operation count queue h =
      rw (on, room)
        (saturate_fits n (queue ++ (usage_event reporter timestamp consumer operation count ∷ [])) (
          rw (length-append queue (usage_event reporter timestamp consumer operation count ∷ []))
            h))

  -- A call that finds the lock free and room in the queue adds its event.
  enqueue_adds :
      (timestamp consumer operation : String) (count : ℕ) (line : Line)
      → line.locked ≡ false
      → length line.queue + 1 ≤ suc n
      → enqueue env reporter timestamp consumer operation count line ≡ record line {
        queue = line.queue ++ (usage_event reporter timestamp consumer operation count ∷ []);
      }
  unfolding enqueue
  enqueue_adds timestamp consumer operation count line free h = rw free (
      ap (λ (q : List Usage). record line { queue = q; locked = false })
        (enqueue_fits timestamp consumer operation count line.queue h))

  pub flush_keeps :
      (core : Core) (line : Line)
      → ((flush_once env core line).posted ++ (flush_once env core line).queue
          ≡ line.posted ++ line.queue)
        × (length (flush_once env core line).queue ≤ length line.queue)
  unfolding flush_once
  flush_keeps core line = elim (Bool-cases (core_base_url env == "")) [
    | inl e ↦ rw (on, e) (refl, omega arith)
    | inr e ↦ elim (Bool-cases line.locked) [
      | inl l ↦ rw (on, e, l) (refl, omega arith)
      | inr l ↦ rw (on, e, l) (post_all_keeps core line.posted line.queue)
    ]
  ]

  -- Once a call holds the lock forever, no operation changes anything.
  pub perform_all-locked :
      (operations : List Operation) (line : Line)
      → line.locked ≡ true
      → perform_all env reporter operations line ≡ line
  unfolding perform_all enqueue flush_once
  perform_all-locked [] line l = refl
  perform_all-locked (usage timestamp consumer operation count ∷ rest) line l =
      ap (perform_all env reporter rest) (rw l) ∙ perform_all-locked rest line l
  perform_all-locked (flush core ∷ rest) line l =
      ap (perform_all env reporter rest)
        (rw on (elim (Bool-cases (core_base_url env == "")) [ inl e ↦ rw e | inr e ↦ rw (e, l) ]))
      ∙ perform_all-locked rest line l

  pub free_before :
      (operations : List Operation) (line : Line)
      → (perform_all env reporter operations line).locked ≡ false
      → line.locked ≡ false
  free_before operations line h = elim (Bool-cases line.locked) [
    | inl l ↦ cc (ap (λ (x : Line). x.locked) (perform_all-locked operations line l), h)
    | inr l ↦ l
  ]

  -- While reporting is on and the queue has room for all the events of a run of calls and flushes
  -- after which the lock is free, the posted events and then the queue are, in order, those before
  -- the run and those of the run: none is lost, doubled or overtaken.
  pub perform_all_keeps :
      (operations : List Operation) (line : Line)
      → length line.queue + length (events_of reporter operations) ≤ suc n
      → (perform_all env reporter operations line).locked ≡ false
      → (perform_all env reporter operations line).posted
          ++ (perform_all env reporter operations line).queue
        ≡ (line.posted ++ line.queue) ++ events_of reporter operations
  unfolding perform_all events_of
  perform_all_keeps [] line h free = sym (append-nil (line.posted ++ line.queue))
  perform_all_keeps (usage timestamp consumer operation count ∷ rest) line h free =
      let event = usage_event reporter timestamp consumer operation count in
      let unlocked = free_before (usage timestamp consumer operation count ∷ rest) line free in
      let longer = length-append line.queue (event ∷ []) in
      let next : Line = record line { queue = line.queue ++ (event ∷ []) } in
      let step : enqueue env reporter timestamp consumer operation count line ≡ next =
        enqueue_adds timestamp consumer operation count line unlocked (omega arith) in
      ap
        (λ (l : Line).
          (perform_all env reporter rest l).posted ++ (perform_all env reporter rest l).queue)
        step
      ∙ (perform_all_keeps rest next (omega (arith, longer))
            (ap (λ (l : Line). (perform_all env reporter rest l).locked) (sym step) ∙ free)
          ∙ ap (λ l. l ++ events_of reporter rest)
              (sym (append_assoc line.posted line.queue (event ∷ [])))
          ∙ append_assoc (line.posted ++ line.queue) (event ∷ []) (events_of reporter rest))
  perform_all_keeps (flush core ∷ rest) line h free =
      let (same, fits) = flush_keeps core line in
      perform_all_keeps rest (flush_once env core line) (omega (arith, fits)) free
      ∙ ap (λ l. l ++ events_of reporter rest) same

  -- The queue holds no more than it held and what came in.
  pub queue_fits :
      (operations : List Operation) (line : Line)
      → length line.queue + length (events_of reporter operations) ≤ suc n
      → length (perform_all env reporter operations line).queue
        ≤ length line.queue + length (events_of reporter operations)
  unfolding perform_all events_of
  queue_fits [] line h = omega arith
  queue_fits (usage timestamp consumer operation count ∷ rest) line h =
      let event = usage_event reporter timestamp consumer operation count in
      let next : Line = record line { queue = line.queue ++ (event ∷ []) } in
      let longer = length-append line.queue (event ∷ []) in
      elim (Bool-cases line.locked) [
        | inl l ↦
            let same =
              ap (λ (x : Line). length x.queue)
                (perform_all-locked (usage timestamp consumer operation count ∷ rest) line l) in
            omega (arith, same)
        | inr l ↦
            let same =
              ap (λ (x : Line). length (perform_all env reporter rest x).queue)
                (enqueue_adds timestamp consumer operation count line l (omega arith)) in
            let fits = queue_fits rest next (omega (arith, longer)) in
            omega (arith, same, fits, longer)
      ]
  queue_fits (flush core ∷ rest) line h =
      let (same, fits) = flush_keeps core line in
      let rest_fits = queue_fits rest (flush_once env core line) (omega (arith, fits)) in
      omega (arith, fits, rest_fits)
