-- ===== src/ProcessingQueue/Tests.antt =====
-- The queue of requests over a queue of items held as a list.
use sensaurus.Prelude.{◌≡◌, refl, true, List, [], ◌∷◌, codes}
use sensaurus.ProcessingQueue.{
  request_none, request_mqtt_publish_status, request_actuator_set, QueueItem, status_item,
  processing_queue, try_push, try_pop,
}
use sensaurus.ProcessingQueue.Sample.{list_fifo}
use sensaurus.ProcessingQueue.Refine.{
  Op, ask_push, ask_pop, pushed, popped, spec_run, run, processing_queue_refines,
}

abbrev set_item : QueueItem
set_item = record { request_type = request_actuator_set; payload = codes "{}" }

abbrev requests : List Op
requests =
    ask_push (status_item request_mqtt_publish_status)
    ∷ ask_push set_item
    ∷ ask_pop
    ∷ ask_pop
    ∷ ask_pop
    ∷ []

processing_queue_refines_example :
    run list_fifo (processing_queue list_fifo) requests
    ≡ spec_run (status_item request_none) [] requests
processing_queue_refines_example = processing_queue_refines list_fifo requests

answers :
    run list_fifo (processing_queue list_fifo) requests
    ≡ pushed true
      ∷ pushed true
      ∷ popped (status_item request_mqtt_publish_status)
      ∷ popped set_item
      ∷ popped (status_item request_none)
      ∷ []
unfolding run processing_queue try_push try_pop
answers = refl
