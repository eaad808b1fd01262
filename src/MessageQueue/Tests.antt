-- ===== src/MessageQueue/Tests.antt =====
-- Runs of message_q.c at small inputs, and the theorems at inputs that meet their hypotheses.
use sys_programming_explorat.Base.{
  ℕ, ◌+◌, ◌≡◌, refl, List, [], ◌∷◌, ◌++◌, true, none, some, arith, ℤ, pos, length,
}
use sys_programming_explorat.MessageQueue
use sys_programming_explorat.MessageQueue.{
  MessageQueue, Memory, Writer, Client, Status, done, mqerr_full, Fetched, message, fault, null, q,
  dq, get, flush, init, register_client, drop_slow_consumers,
}
use sys_programming_explorat.MessageQueue.Validity.{IsValid, IsAligned, waiting}
use sys_programming_explorat.MessageQueue.Fifo.{q-waiting, dq-waiting, get-waiting}
use sys_programming_explorat.MessageQueue.Overflow.{
  q_emptied_faults, register_full_silent, free_full_leaks,
}
use sys_programming_explorat.MessageQueue.Flush.{flush-send_all}
use sys_programming_explorat.MessageQueue.Drop.{
  drop_slow_consumers-clients, drop_slow_consumers-CaughtUp, keep_from,
}

-- Strings as their bytes, and a memory that only counts the live strings.
abbrev plain : Memory (List ℕ) ℕ
plain = record {
  sdsnewlen = λ bs n. (some bs, n + 1);
  sdsdup = λ s n. (some s, n + 1);
  sdsfree = λ s n. n;
  text = λ s. s;
  malloc = λ size n. (true, n);
  free = λ n. n;
}

-- A network that records what was written to whom.
abbrev Log : Type 0
Log = List (ℤ × List ℕ)

abbrev record_all : Writer Log
record_all fd bs log = (some (length bs), log ++ ((fd, bs) ∷ []))

-- Capacity 3; message 7 waits at index 2, message 8 at index 0.
abbrev wrapped : MessageQueue (List ℕ)
wrapped = record {
  capacity = 3;
  messages = some (8 ∷ []) ∷ none ∷ some (7 ∷ []) ∷ [];
  start = some 2;
  end = 1;
  clients = record { fd = pos 5; roff = 2 } ∷ record { fd = pos 4; roff = 0 } ∷ [];
}

abbrev full : MessageQueue (List ℕ)
full = record {
  capacity = 3;
  messages = some (8 ∷ []) ∷ some (9 ∷ []) ∷ some (7 ∷ []) ∷ [];
  start = some 2;
  end = 2;
  clients = record { fd = pos 5; roff = 2 } ∷ [];
}

-- Emptied, with `end` at index 1.
abbrev emptied : MessageQueue (List ℕ)
emptied = record {
  capacity = 3;
  messages = none ∷ none ∷ none ∷ [];
  start = none;
  end = 1;
  clients = [];
}

wrapped-IsValid : IsValid wrapped
unfolding MessageQueue.get_length MessageQueue.slot
wrapped-IsValid = record {
  positive = omega arith;
  small = omega arith;
  stored = refl;
  start_in = omega arith;
  end_in = omega arith;
  filled = tt;
}

full-IsValid : IsValid full
unfolding MessageQueue.get_length MessageQueue.slot
full-IsValid = record {
  positive = omega arith;
  small = omega arith;
  stored = refl;
  start_in = omega arith;
  end_in = omega arith;
  filled = tt;
}

waiting-wrapped : waiting wrapped ≡ some (7 ∷ []) ∷ some (8 ∷ []) ∷ []
unfolding MessageQueue.get_length MessageQueue.slot
waiting-wrapped = refl

flush-wrapped :
    flush plain record_all wrapped (pos 4) []
    ≡ some (
      done,
      record wrapped {
        clients = record { fd = pos 5; roff = 2 } ∷ record { fd = pos 4; roff = 1 } ∷ [];
      },
      (pos 4, 8 ∷ []) ∷ [],
    )
unfolding flush
flush-wrapped = refl

q-waiting_example :
    let (status, mq, _) = q plain wrapped (9 ∷ []) 0 in
    (status ≡ done)
    × (waiting mq ≡ waiting wrapped ++ (some (9 ∷ []) ∷ []))
    × IsValid mq
    × IsAligned mq.start mq.end
q-waiting_example =
    q-waiting plain wrapped (9 ∷ []) 0 1 (9 ∷ []) wrapped-IsValid tt (λ e. ground arith)
      (omega arith) refl

dq-waiting_example :
    let (fetched, mq, _) = dq plain wrapped 0 in
    (fetched ≡ message (7 ∷ [])) × (waiting mq ≡ some (8 ∷ []) ∷ []) × IsValid mq
dq-waiting_example =
    dq-waiting plain wrapped (7 ∷ []) (7 ∷ []) (some (8 ∷ []) ∷ []) 0 1 wrapped-IsValid
      waiting-wrapped refl

get-waiting_example : get plain wrapped 1 0 ≡ (message (8 ∷ []), 1)
unfolding MessageQueue.get_length MessageQueue.slot
get-waiting_example = get-waiting plain wrapped 1 (8 ∷ []) (8 ∷ []) 0 1 wrapped-IsValid refl refl

q_emptied_faults_example :
    let (status, mq, _) = q plain emptied (9 ∷ []) 0 in
    (status ≡ done) × ((dq plain mq 0).0 ≡ fault)
unfolding MessageQueue.slot
q_emptied_faults_example =
    q_emptied_faults plain emptied (9 ∷ []) 0 1 0 (9 ∷ []) refl (omega arith) refl (omega arith)
      refl

register_full_silent_example :
    let (status, mq, _) = register_client plain full (pos 9) 0 in
    (status ≡ done) × (flush plain record_all mq (pos 9) [] ≡ some (done, mq, []))
register_full_silent_example =
    register_full_silent plain record_all full (pos 9) 0 0 [] refl (omega arith) refl

free_full_leaks_example : MessageQueue.free plain full 7 ≡ 7
free_full_leaks_example = free_full_leaks plain full 7 refl

flush-send_all_example :
    flush plain record_all wrapped (pos 5) []
    ≡ some (
      done,
      record wrapped {
        clients = record { fd = pos 5; roff = 1 } ∷ record { fd = pos 4; roff = 0 } ∷ [];
      },
      (pos 5, 7 ∷ []) ∷ (pos 5, 8 ∷ []) ∷ [],
    )
unfolding MessageQueue.get_length MessageQueue.slot MessageQueue.send_slot
    MessageQueue.Flush.send_all
flush-send_all_example =
    flush-send_all plain record_all wrapped (pos 5) [] (record { fd = pos 4; roff = 0 } ∷ [])
      (record { fd = pos 5; roff = 2 }) [] wrapped-IsValid (omega arith) refl tt refl (omega arith)

drop_slow_consumers-clients_example :
    (drop_slow_consumers plain wrapped 0).0.clients ≡ record { fd = pos 4; roff = 0 } ∷ []
unfolding MessageQueue.get_length keep_from
drop_slow_consumers-clients_example =
    drop_slow_consumers-clients plain wrapped 2 0 wrapped-IsValid (omega arith) refl (omega arith)

drop_slow_consumers-CaughtUp_example : (drop_slow_consumers plain full 0).0.clients ≡ []
drop_slow_consumers-CaughtUp_example =
    drop_slow_consumers-CaughtUp plain full 0 full-IsValid (omega arith) (omega arith) refl
      (omega arith)
