-- ===== src/Pdc/Stranded.antt =====
-- LltcResequenceQueue: autoDequeueTask does not schedule itself again, so that a packet may be left in
-- the queue with no task to come.
use tafrr.Prelude.{ℕ, ◌+◌, ◌<◌, ◌≡◌, refl, some, [], ◌∷◌, arith}
use tafrr.Pdc.{
  DataElement, ResequenceQueue, packet, auto_dequeue_task, release_queue, pass_on, make_room,
  enqueue, schedule_dequeue, receive_data, step, run, new_queue, push_seq, release_in_order, expire,
  release_expired,
}

module _ {X : Type 0} (size wait i a b t0 t1 t2 : ℕ) (x y z : X) where
  abbrev passed_first : ResequenceQueue X
  passed_first = record {
    size = size;
    max_wait_time = wait;
    last_plus_one = i + 1;
    q_seq = [];
    q_time = [];
    sent = (i, x) ∷ [];
    tasks = [];
  }

  abbrev held_a : DataElement X
  held_a = record { data_id = a; payload = y; arrive_time = t1 }

  abbrev held_b : DataElement X
  held_b = record { data_id = b; payload = z; arrive_time = t2 }

  abbrev holds_a : ResequenceQueue X
  holds_a = record passed_first {
    q_seq = held_a ∷ [];
    q_time = held_a ∷ [];
    tasks = (t1 + wait) ∷ [];
  }

  abbrev holds_both : ResequenceQueue X
  holds_both = record passed_first {
    q_seq = held_a ∷ held_b ∷ [];
    q_time = held_a ∷ held_b ∷ [];
    tasks = (t1 + wait) ∷ (t1 + wait) ∷ [];
  }

  abbrev pub holds_b : ResequenceQueue X
  holds_b = record {
    size = size;
    max_wait_time = wait;
    last_plus_one = a + 1;
    q_seq = held_b ∷ [];
    q_time = held_b ∷ [];
    sent = (i, x) ∷ (a, y) ∷ [];
    tasks = (t1 + wait) ∷ (t1 + wait) ∷ [];
  }

  module _ (room : 1 < size) (gap : i + 1 < a) (after : a < b) (early : t1 < t2)
      (soon : t2 < t1 + wait) where
    receive_first : receive_data t0 i x (new_queue size wait) ≡ some passed_first
    unfolding receive_data new_queue pass_on
    receive_first = ground arith

    receive_a : receive_data t1 a y passed_first ≡ some holds_a
    unfolding receive_data make_room enqueue push_seq release_queue release_in_order expire
        schedule_dequeue
    receive_a = ground arith

    receive_b : receive_data t2 b z holds_a ≡ some holds_both
    unfolding receive_data make_room enqueue push_seq release_queue release_in_order expire
        schedule_dequeue
    receive_b = ground arith

    dequeue_a : release_queue (t1 + wait) holds_both ≡ holds_b
    unfolding release_queue release_in_order expire release_expired
    dequeue_a = ground arith

    -- A queue with room for two passes the first packet on, then holds two later ones that come in
    -- the order of their IDs, behind a gap. When autoDequeueTask runs as the older of them has
    -- waited long enough, the newer stays, and no task is scheduled for a time after this one.
    pub run-strands :
        run
          (new_queue size wait)
          (packet t0 i x ∷ packet t1 a y ∷ packet t2 b z ∷ auto_dequeue_task (t1 + wait) ∷ [])
        ≡ some holds_b
    unfolding run step
    run-strands = simp (receive_first, receive_a, receive_b, dequeue_a) refl
