-- ===== src/DataIdQueue.antt =====
-- NFD/daemon/fw/lltc-common.cpp, LltcDataIdQueue: IDs of packets in the order of their arrival, each
-- once, with the times of arrival. `none` stands for `front()` of an empty queue. `n` is a size_t.
pub mod Refine
use tafrr.Prelude.{
  ℕ, ◌+◌, ◌-◌, ◌%◌, ◌^◌, Bool, Option, none, some, List, [], ◌∷◌, ◌++◌, ◌==◌, if◌then◌else◌, length,
  contains, remove, ◌>>=◌,
}
use tafrr.Prelude.Dict.{Dict, insert, erase, get_or}

abbrev pub size_mod : ℕ
size_mod = 2 ^ 64

pub record DataIdQueue : Type 0 where
  pub n : ℕ
  pub q : List ℕ
  pub set : List ℕ
  pub data_id_add_time_map : Dict ℕ

-- The constructor leaves `n` as it finds it.
unfoldable pub new_queue : ℕ → DataIdQueue
new_queue n = record { n = n; q = []; set = []; data_id_add_time_map = [] }

unfoldable pub set_len : ℕ → DataIdQueue → DataIdQueue
set_len n s = record s { n = n }

-- `pop()`, and the same statements in `push`: the first ID, and the queue without it.
unfoldable pub pop : DataIdQueue → Option (ℕ × DataIdQueue)
pop s = elim s.q [
  | [] ↦ none
  | x ∷ q ↦ some (
    x,
    record {
      n = (s.n + size_mod - 1) % size_mod;
      q = q;
      set = remove x s.set;
      data_id_add_time_map = erase x s.data_id_add_time_map;
    },
  )
]

unfoldable pub append : ℕ → ℕ → DataIdQueue → DataIdQueue
append x time s = record {
  n = (s.n + 1) % size_mod;
  q = s.q ++ x ∷ [];
  set = x ∷ s.set;
  data_id_add_time_map = insert x time s.data_id_add_time_map;
}

unfoldable pub push : ℕ → ℕ → DataIdQueue → Option DataIdQueue
unfolding pop append
push x time s =
    if contains s.set x
    then some s
    else if length s.q == s.n
    then (pop s >>= λ p. some (append x time p.1))
    else some (append x time s)

unfoldable pub has_id : ℕ → DataIdQueue → Bool
has_id x s = contains s.set x

unfoldable pub size : DataIdQueue → ℕ
size s = s.n

unfoldable pub get_data_id_add_time : ℕ → DataIdQueue → ℕ
get_data_id_add_time x s = get_or x 0 s.data_id_add_time_map

pub data Op : Type 0 where
  pushes : ℕ → ℕ → Op
  pops : Op

unfoldable pub step : DataIdQueue → Op → Option DataIdQueue
unfolding push pop
step s (pushes x time) = push x time s
step s pops = pop s >>= λ p. some p.1

unfoldable pub run : DataIdQueue → List Op → Option DataIdQueue
unfolding step
run s [] = some s
run s (op ∷ ops) = step s op >>= λ s'. run s' ops
