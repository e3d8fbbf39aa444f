-- ===== src/Pdc.antt =====
-- apps/lltc-pdc.cpp, LltcResequenceQueue: the packets of one PMU put back into their order before the
-- PDC application has them. `q_seq` is the std::priority_queue as the list of its elements in the
-- order in which it hands them out, those with the same ID as they came in. `sent` is what sendData
-- passed to onDataArrives, oldest first, and `tasks` are the times for which autoDequeueTask was
-- scheduled. `last_plus_one` is `lastDataId + 1`, so that -1 is 0; times are native numbers. `none`
-- stands for `top()` or `front()` of an empty queue. `X` is what a packet carries besides its ID.
pub mod Conserved
pub mod Queues
pub mod Valid
pub mod Run
pub mod Stranded
use tafrr.Prelude.{
  ℕ, suc, ◌+◌, Bool, true, false, Option, none, some, List, [], ◌∷◌, ◌++◌, ◌==◌, if◌then◌else◌, ltb,
  leb, length, ◌>>=◌,
}

pub record DataElement (X : Type 0) : Type 0 where
  pub data_id : ℕ
  pub payload : X
  pub arrive_time : ℕ

pub record ResequenceQueue (X : Type 0) : Type 0 where
  pub size : ℕ
  pub max_wait_time : ℕ
  pub last_plus_one : ℕ
  pub q_seq : List (DataElement X)
  pub q_time : List (DataElement X)
  pub sent : List (ℕ × X)
  pub tasks : List ℕ

-- What releaseQueue changes: the queue by IDs, `lastDataId + 1` and the packets passed on.
pub record Release (X : Type 0) : Type 0 where
  pub queue : List (DataElement X)
  pub last_plus_one : ℕ
  pub sent : List (ℕ × X)

-- What happens to the queue: a packet arrives, or autoDequeueTask runs.
pub data Event (X : Type 0) : Type 0 where
  packet : ℕ → ℕ → X → Event X
  auto_dequeue_task : ℕ → Event X

module _ {X : Type 0} where
  unfoldable pub new_queue : ℕ → ℕ → ResequenceQueue X
  new_queue size max_wait_time = record {
    size = size;
    max_wait_time = max_wait_time;
    last_plus_one = 0;
    q_seq = [];
    q_time = [];
    sent = [];
    tasks = [];
  }

  abbrev pub item : DataElement X → ℕ × X
  item d = (d.data_id, d.payload)

  -- `q_seq.push(de)` under the order of DataElement's operator<: the least ID comes first.
  unfoldable pub push_seq : DataElement X → List (DataElement X) → List (DataElement X)
  push_seq de [] = de ∷ []
  push_seq de (d ∷ q) =
      let later = push_seq de q in if ltb de.data_id d.data_id then de ∷ d ∷ q else d ∷ later

  -- The first loop of releaseQueue: the packets that follow the last one without a gap.
  unfoldable pub release_in_order : List (DataElement X) → ℕ → List (ℕ × X) → Release X
  release_in_order [] last sent = record { queue = []; last_plus_one = last; sent = sent }
  release_in_order (d ∷ q) last sent =
      let later = release_in_order q (last + 1) (sent ++ item d ∷ []) in
      if d.data_id == last
      then later
      else record { queue = d ∷ q; last_plus_one = last; sent = sent }

  -- The second loop: the packets that waited long enough leave `q_time`. The largest of their IDs,
  -- plus one, starts from 0 for -1.
  unfoldable pub expire : ℕ → ℕ → List (DataElement X) → ℕ → List (DataElement X) × ℕ
  expire now wait [] max = ([], max)
  expire now wait (d ∷ q) max =
      let later = expire now wait q (if leb max d.data_id then d.data_id + 1 else max) in
      if leb (d.arrive_time + wait) now then later else (d ∷ q, max)

  -- The third loop: every packet up to the largest expired ID.
  unfoldable pub release_expired : ℕ → List (DataElement X) → ℕ → List (ℕ × X) → Release X
  release_expired max [] last sent = record { queue = []; last_plus_one = last; sent = sent }
  release_expired max (d ∷ q) last sent =
      let later = release_expired max q (d.data_id + 1) (sent ++ item d ∷ []) in
      if ltb d.data_id max
      then later
      else record { queue = d ∷ q; last_plus_one = last; sent = sent }

  abbrev pub released : Release X → List (DataElement X) → ResequenceQueue X → ResequenceQueue X
  released r q_time s = record s {
    q_seq = r.queue;
    q_time = q_time;
    last_plus_one = r.last_plus_one;
    sent = r.sent;
  }

  unfoldable pub release_queue : ℕ → ResequenceQueue X → ResequenceQueue X
  unfolding release_in_order expire release_expired
  release_queue now s =
      let r = release_in_order s.q_seq s.last_plus_one s.sent in
      let old = expire now s.max_wait_time s.q_time 0 in
      elim r.queue [
        | [] ↦ released r s.q_time s
        | d ∷ q ↦
            if old.1 == 0
            then released r old.0 s
            else released (release_expired old.1 (d ∷ q) r.last_plus_one r.sent) old.0 s
      ]

  -- sendData, with the new `lastDataId`.
  unfoldable pub pass_on : ℕ → X → ResequenceQueue X → ResequenceQueue X
  pass_on id x s = record s { sent = s.sent ++ (id, x) ∷ []; last_plus_one = id + 1 }

  -- A full queue passes its first packet on.
  unfoldable pub make_room : ResequenceQueue X → Option (ResequenceQueue X)
  unfolding pass_on
  make_room s =
      if length s.q_seq == s.size
      then elim s.q_seq [
        | [] ↦ none
        | d ∷ q ↦ some (pass_on d.data_id d.payload (record s { q_seq = q }))
      ]
      else some s

  unfoldable pub enqueue : DataElement X → ResequenceQueue X → ResequenceQueue X
  unfolding push_seq
  enqueue de s = record s { q_seq = push_seq de s.q_seq; q_time = s.q_time ++ de ∷ [] }

  -- The call of `Simulator::Schedule`. `curAutoDequeueTaskEvent` is never set, so that nothing that was
  -- scheduled is removed.
  unfoldable pub schedule_dequeue : ResequenceQueue X → Option (ResequenceQueue X)
  schedule_dequeue s = elim s.q_seq [
    | [] ↦ some s
    | _ ∷ _ ↦ elim s.q_time [
      | [] ↦ none
      | d ∷ _ ↦ some (record s { tasks = s.tasks ++ (d.arrive_time + s.max_wait_time) ∷ [] })
    ]
  ]

  -- `now` is `Simulator::Now()`.
  unfoldable pub receive_data : ℕ → ℕ → X → ResequenceQueue X → Option (ResequenceQueue X)
  unfolding pass_on make_room enqueue release_queue schedule_dequeue
  receive_data now id x s =
      if s.last_plus_one == 0
      then some (pass_on id x s)
      else if id == s.last_plus_one
      then some (pass_on id x s)
      else do
        s' ← make_room s
        schedule_dequeue (
            release_queue now
              (enqueue (record { data_id = id; payload = x; arrive_time = now }) s'))

  unfoldable pub step : ResequenceQueue X → Event X → Option (ResequenceQueue X)
  unfolding receive_data release_queue
  step s (packet now id x) = receive_data now id x s
  step s (auto_dequeue_task now) = some (release_queue now s)

  unfoldable pub run : ResequenceQueue X → List (Event X) → Option (ResequenceQueue X)
  unfolding step
  run s [] = some s
  run s (e ∷ es) = step s e >>= λ s'. run s' es
