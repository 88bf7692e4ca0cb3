-- ===== src/Telemetry/Stop.antt =====
-- The events of a run of the service, over its stop and the next start.
use synthia_mqtt.Prelude.{
  ℕ, suc, ◌+◌, ◌≤◌, ◌≡◌, ap, ◌∙◌, String, true, false, Bool-cases, inl, inr, some, List, [], ◌∷◌,
  ◌++◌, map, length, length-map, arith,
}
use synthia_mqtt.Json.{pos, Environment, Builtins}
use synthia_mqtt.Telemetry.{Usage, Reporter, Core, enabled, saturate, flush_once, Line}
use synthia_mqtt.Telemetry.Delivery.{
  Operation, flush, perform_all, events_of, perform_all_keeps, queue_fits, flush_keeps, free_before,
  saturate_fits,
}
use synthia_mqtt.Telemetry.QueueFile.{Printer, usage_fields, persist_queue, load_queue, stop}
use synthia_mqtt.Telemetry.Restart.{AllPrinted, load_queue-persist_queue}

-- A stop that returns has left the lock free and written the queue.
stop-some :
    (compact : Printer) (env : Environment) (core : Core) (line : Line) {text : String}
    → stop compact env core line ≡ some text
    → ((flush_once env core line).locked ≡ false)
      × (text ≡ persist_queue compact (map usage_fields (flush_once env core line).queue))
unfolding stop
stop-some compact env core line h = elim (Bool-cases (flush_once env core line).locked) [
  | inl kept ↦ absurd (ground (arith, kept, h))
  | inr free ↦ (free, ground (arith, free, h))
]

free_flush :
    (env : Environment) (reporter : Reporter) (n : ℕ) (core : Core) (line : Line)
    → enabled env ≡ true
    → reporter.max_queue ≡ pos (suc n)
    → (flush_once env core line).locked ≡ false
    → line.locked ≡ false
unfolding perform_all
free_flush env reporter n core line on room free =
    free_before env reporter n on room (flush core ∷ []) line free

-- While reporting is on and the queue has room, after a run of calls and flushes and a stop that
-- returns, the core's events and then those that the next reporter starts with are, in order, the
-- events before the run and those of the run, if the events left are printed as `json` prints them.
pub stop-load_queue :
    ⦃python : Builtins⦄ (compact : Printer) (env : Environment) (reporter : Reporter) (n : ℕ)
    (operations : List Operation) (line : Line) (core : Core) (text : String)
    → enabled env ≡ true
    → reporter.max_queue ≡ pos (suc n)
    → length line.queue + length (events_of reporter operations) ≤ suc n
    → stop compact env core (perform_all env reporter operations line) ≡ some text
    → AllPrinted compact
        (map usage_fields (flush_once env core (perform_all env reporter operations line)).queue)
    → (left : List Usage) × (load_queue reporter.max_queue (some text) ≡ map usage_fields left)
      × ((flush_once env core (perform_all env reporter operations line)).posted ++ left
          ≡ (line.posted ++ line.queue) ++ events_of reporter operations)
stop-load_queue compact env reporter n operations line core text on room fits stopped printed =
    let after = perform_all env reporter operations line in
    let left = (flush_once env core after).queue in
    let (free, written) = stop-some compact env core after stopped in
    let (same, fewer) = flush_keeps env reporter n on room core after in
    let run =
      perform_all_keeps env reporter n on room operations line fits
        (free_flush env reporter n core after on room free) in
    let few = queue_fits env reporter n on room operations line fits in
    (
      left,
      ap (λ t. load_queue reporter.max_queue (some t)) written
          ∙ load_queue-persist_queue compact reporter.max_queue (map usage_fields left) printed
          ∙ ap (λ m. saturate m (map usage_fields left)) room
          ∙ saturate_fits n (map usage_fields left)
              (omega (arith, fewer, few, fits, length-map usage_fields left)),
      same ∙ run,
    )
