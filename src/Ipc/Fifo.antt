-- ===== src/Ipc/Fifo.antt =====
-- `ProducerQueue` of src/ipc_producer.hpp and the reading loop of src/ipc_consumer.py over one ring, in
-- any order of their steps.
use pingweave.Base.{
  ℕ, zero, suc, ◌+◌, ◌-◌, ◌<◌, ◌≡◌, refl, sym, ap, subst, ◌∙◌, inl, inr, some, List, [], ◌∷◌, ◌++◌,
  arith, u64, if◌then◌else◌, length, length-append,
}
use mathlib.Core.List.{append_assoc}
use pingweave.Ipc.{
  Message, SharedData, ProducerQueue, ipc_buffer_size, ipc_message_size, strncpy,
  init_shared_memory, write_message, consume, read_messages, after_round, put_first,
}
use pingweave.Ipc.Ring.{IsValid, contents, init_shared_memory_empty, write_message_lem, consume_lem}

-- The ring with its history: what the producer was told is written, how often it was refused, and
-- what the consumer has read.
pub record System : Type 0 where
  pub queue : ProducerQueue
  pub accepted : List Message
  pub refused : ℕ
  pub delivered : List Message

abbrev pub after_write : ℕ → Message → System → System
after_write c cs s =
    let (queue', done) = write_message (c ∷ cs) s.queue in
    record {
      queue = queue';
      accepted =
          if done then s.accepted ++ (strncpy (c ∷ cs) (ipc_message_size - 1) ∷ []) else s.accepted;
      refused = if done then s.refused else s.refused + 1;
      delivered = s.delivered;
    }

pub data Step (s : System) : System → Type 0 where
  writes : (c : ℕ) (cs : Message) → Step s (after_write c cs s)
  reads :
      {m : Message} {d : SharedData}
      → consume s.queue.shared ≡ some (m, d)
      → Step s (record s {
        queue = record (s.queue) { shared = d };
        delivered = s.delivered ++ (m ∷ []);
      })

abbrev pub init : SharedData → System
init d = record {
  queue = record { shared = init_shared_memory d; n_dropped_msgs = 0 };
  accepted = [];
  refused = 0;
  delivered = [];
}

pub data Reach (d : SharedData) : System → Type 0 where
  start : Reach d (init d)
  later : {s t : System} → Reach d s → Step s t → Reach d t

pub record IsFifo (s : System) : Type 0 where
  pub valid : IsValid s.queue.shared
  pub in_order : s.accepted ≡ s.delivered ++ contents s.queue.shared
  pub room : length (contents s.queue.shared) < ipc_buffer_size
  pub dropped : s.queue.n_dropped_msgs ≡ u64 s.refused

after_write-IsFifo : (c : ℕ) (cs : Message) (s : System) → IsFifo s → IsFifo (after_write c cs s)
after_write-IsFifo c cs s f =
    let (v, r) = write_message_lem c cs s.queue f.valid in
    elim r [
      | inl (few, done, more, same) ↦
          let longer : length (contents (write_message (c ∷ cs) s.queue).0.shared)
              ≡ length (contents s.queue.shared) + 1 =
            rw more (length-append (contents s.queue.shared) _) in
          record {
            valid = v;
            in_order = rw (done, more, f.in_order) (append_assoc s.delivered _ _);
            room = omega (arith, few, longer);
            dropped = rw done (same ∙ f.dropped);
          }
      | inr (full, done, same, counted) ↦
          let again : u64 (u64 s.refused + 1) ≡ u64 (s.refused + 1) = omega arith in
          record {
            valid = v;
            in_order = rw (done, same) f.in_order;
            room = rw same f.room;
            dropped = rw (done, counted, f.dropped) again;
          }
    ]

Step-IsFifo : {s t : System} → Step s t → IsFifo s → IsFifo t
Step-IsFifo {s} (writes c cs) f = after_write-IsFifo c cs s f
Step-IsFifo {s} (reads {m} {d} e) f = elim (consume_lem s.queue.shared f.valid) [
  | inl (nothing, none_read) ↦ absurd (cc)
  | inr (m', d', e', taken, v) ↦
      let (same_m, same_d) : (m ≡ m') × (d ≡ d') = (cc, cc) in
      record {
        valid = subst IsValid (sym same_d) v;
        in_order =
            rw (f.in_order, taken, same_m, same_d) (sym (append_assoc s.delivered (m' ∷ []) _));
        room = rw same_d (omega (arith, f.room, ap length taken));
        dropped = f.dropped;
      }
]

-- Over any interleaving of writes and reads on a ring set up with its 64 slots: the messages that
-- were accepted are, in order, those delivered followed by those waiting in the ring, at most 63
-- wait, the ring is valid, and the producer's count of dropped messages is the number of refused
-- writes, modulo 2^64.
pub Reach-IsFifo :
    (d : SharedData) (s : System) → length d.messages ≡ ipc_buffer_size → Reach d s → IsFifo s
Reach-IsFifo d s slots start =
    let (v, nothing) = init_shared_memory_empty d slots in
    record { valid = v; in_order = sym nothing; room = rw nothing (omega arith); dropped = refl }
Reach-IsFifo d s slots (later r step) = Step-IsFifo step (Reach-IsFifo d _ slots r)

-- On a valid ring, more rounds than messages are waiting are enough for the consumer's loop to end:
-- it returns all the waiting messages, oldest first, and leaves a valid ring with nothing to read.
pub read_messages_all :
    (fuel : ℕ) (d : SharedData)
    → IsValid d
    → length (contents d) < fuel
    → (last : SharedData) × (read_messages fuel d ≡ some (contents d, last))
      × (contents last ≡ [])
      × IsValid last
unfolding read_messages
read_messages_all zero d v h = absurd (omega arith)
read_messages_all (suc fuel) d v h = elim (consume_lem d v) [
  | inl (nothing, none_read) ↦
      (d, rw nothing (ap (after_round (read_messages fuel) d) none_read), nothing, v)
  | inr (m, d', taken, more, v') ↦
      let fewer : length (contents d') < fuel = omega (arith, h, ap length more) in
      let (last, all_read, empty, valid) = read_messages_all fuel d' v' fewer in
      let step : read_messages (suc fuel) d ≡ put_first m (read_messages fuel d') =
        ap (after_round (read_messages fuel) d) taken in
      (last, step ∙ ap (put_first m) all_read ∙ rw more refl, empty, valid)
]
