-- ===== src/Telemetry/Restart.antt =====
-- The queue across a restart of the service.
use synthia_mqtt.Prelude.{◌≡◌, refl, ap, ◌∙◌, String, false, some, List, [], ◌∷◌, map, ◌==◌}
use synthia_mqtt.Prelude.Text.{strip, join, split_lines}
use synthia_mqtt.Prelude.Text.Lines.{
  IsLine, file_text, AllLines, split_lines-file_text, join-file_text,
}
use synthia_mqtt.Json.{ℤ, obj, Fields, Builtins}
use synthia_mqtt.Telemetry.{saturate}
use synthia_mqtt.Telemetry.QueueFile.{Printer, persist_queue, load_items, loaded, load_queue}

module _ ⦃python : Builtins⦄ (compact : Printer) where
  -- What `json` does with an event: it prints it on one line, without white space at its ends, and
  -- reads it back.
  pub record IsPrinted (item : Fields) : Type 0 where
    pub one_line : IsLine (compact (obj item))
    pub solid : strip (compact (obj item)) ≡ compact (obj item)
    pub filled : (compact (obj item) == "") ≡ false
    pub read_back : python.loads (compact (obj item)) ≡ some (obj item)

  abbrev pub AllPrinted : List Fields → Type 0
  AllPrinted [] = Unit
  AllPrinted (item ∷ rest) = IsPrinted item × AllPrinted rest

  abbrev lines_of : List Fields → List String
  lines_of queue = map (λ (item : Fields). compact (obj item)) queue

  lines_of-AllLines : (queue : List Fields) → AllPrinted queue → AllLines (lines_of queue)
  lines_of-AllLines [] h = tt
  lines_of-AllLines (item ∷ rest) h = (h.0.one_line, lines_of-AllLines rest h.1)

  load_items-lines_of :
      (queue : List Fields) → AllPrinted queue → load_items (lines_of queue) ≡ some queue
  unfolding load_items
  load_items-lines_of [] h = refl
  load_items-lines_of (item ∷ rest) h =
      rw (h.0.solid, h.0.filled, h.0.read_back, load_items-lines_of rest h.1) refl

  persisted : (queue : List Fields) → persist_queue compact queue ≡ file_text (lines_of queue)
  unfolding persist_queue join
  persisted [] = refl
  persisted (item ∷ rest) = join-file_text (compact (obj item)) (lines_of rest)

  -- A new reporter starts with the queue that the last one left in the file, cut to the length that
  -- is set, if the events are printed as `json` prints them.
  pub load_queue-persist_queue :
      (max_queue : ℤ) (queue : List Fields)
      → AllPrinted queue
      → load_queue max_queue (some (persist_queue compact queue)) ≡ saturate max_queue queue
  unfolding load_queue loaded
  load_queue-persist_queue max_queue queue h =
      ap (λ text. loaded max_queue (load_items (split_lines text))) (persisted queue)
      ∙ ap (λ lines. loaded max_queue (load_items lines))
          (split_lines-file_text (lines_of queue) (lines_of-AllLines queue h))
      ∙ ap (loaded max_queue) (load_items-lines_of queue h)
