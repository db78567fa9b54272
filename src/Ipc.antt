-- ===== src/Ipc.antt =====
-- `ProducerQueue` of src/ipc_producer.hpp, a ring of messages in shared memory, with the consumer
-- of src/ipc_consumer.py that reads it. Both processes see head and tail at once (the accesses
-- are atomic); each call is one step. A character is a number, and a message a list of them.
pub mod Ring
pub mod Names
pub mod Fifo
mod Tests
use pingweave.Base.{
  ℕ, zero, suc, ◌+◌, ◌-◌, ◌*◌, ◌/◌, ◌%◌, ◌^◌, ◌≤◌, ◌<◌, bit_or, bit_and, ◌≡◌, refl, sym, ap, ap₂,
  subst, ◌∙◌, ◌≢◌, ◌↔◌, ◌⊎◌, inl, inr, ite, if_pos, if_neg, Bool, true, false, not, ◌&&◌, ◌||◌,
  Option, none, some, List, [], ◌∷◌, ◌++◌, map, foldl, filter, Mem, Nodup, Perm, arith, dec_lt,
  dec_le, ℕ_discrete, u64, u32, success, failure, ltb, leb, ◌==◌, if◌then◌else◌, ltb→lt, lt→ltb,
  leb→le, ==_iff, ==_self, Bool-cases, Option-cases, length, get_elem?, get_or, set, All,
  length-append, length-set, get_or-set_self, get_or-set_ne,
}

abbrev pub Message : Type 0
Message = List ℕ

-- `IPC_MESSAGE_SIZE` and `IPC_BUFFER_SIZE`
abbrev pub ipc_message_size : ℕ
ipc_message_size = 2097152

abbrev pub ipc_buffer_size : ℕ
ipc_buffer_size = 64

pub record SharedData : Type 0 where
  pub messages : List Message
  pub head : ℕ
  pub tail : ℕ

pub record ProducerQueue : Type 0 where
  pub shared : SharedData
  pub n_dropped_msgs : ℕ

-- What `strncpy(dst, message.c_str(), n)` and the terminator leave as the text of the slot: the
-- characters before the first NUL, at most n.
unfoldable pub strncpy : Message → ℕ → Message
strncpy [] n = []
strncpy (c ∷ cs) zero = []
strncpy (c ∷ cs) (suc n) = let rest = strncpy cs n in if c == 0 then [] else c ∷ rest

pub init_shared_memory : SharedData → SharedData
init_shared_memory d = record d { head = 0; tail = 0 }

unfoldable pub write_slot : Message → ProducerQueue → ProducerQueue × Bool
write_slot message p =
    let d = p.shared in
    let next_tail = (d.tail + 1) % ipc_buffer_size in
    if next_tail == d.head
    then (record p { n_dropped_msgs = u64 (p.n_dropped_msgs + 1) }, false)
    else (
      record p {
        shared = record d {
          messages = set d.messages d.tail (strncpy message (ipc_message_size - 1));
          tail = next_tail;
        };
      },
      true,
    )

unfoldable pub write_message : Message → ProducerQueue → ProducerQueue × Bool
unfolding write_slot
write_message [] p = (p, true)
write_message (c ∷ cs) p = write_slot (c ∷ cs) p

pub discard_all_pending_messages : ProducerQueue → ProducerQueue
discard_all_pending_messages p = record p { shared = record (p.shared) { head = p.shared.tail } }

-- The destructor: what the memory holds that it leaves behind.
pub release : ProducerQueue → SharedData
unfolding discard_all_pending_messages
release p = (discard_all_pending_messages p).shared

-- One round of the consumer's loop: `none` if the ring is empty. A message is taken as the bytes that it
-- has; the consumer decodes them as UTF-8 and drops those that are none.
pub consume : SharedData → Option (Message × SharedData)
consume d =
    if d.head == d.tail
    then none
    else some (get_or d.messages d.head [], record d { head = (d.head + 1) % ipc_buffer_size })

abbrev pub put_first :
    Message → Option (List Message × SharedData) → Option (List Message × SharedData)
put_first m none = none
put_first m (some (ms, d)) = some (m ∷ ms, d)

-- What a round of `read_messages` makes of what it found, `again` being the rounds that follow.
abbrev pub after_round :
    (SharedData → Option (List Message × SharedData))
    → SharedData
    → Option (Message × SharedData)
    → Option (List Message × SharedData)
after_round again d none = some ([], d)
after_round again d (some (m, d')) = put_first m (again d')

-- `read_messages` of the consumer, on its own: rounds until the ring is empty. `none` means that the
-- fuel ran out.
unfoldable pub read_messages : ℕ → SharedData → Option (List Message × SharedData)
read_messages zero d = none
read_messages (suc fuel) d = after_round (read_messages fuel) d (consume d)

-- How the wait ends: the ring was empty, or the time was out.
pub data Waited : Type 0 where
  all_read timed_out still_waiting : Waited

-- `waitConsumerToReadAll`, on what it sees in each round: head, tail and the elapsed time.
pub wait_consumer_to_read_all : ℕ → List (ℕ × ℕ × ℕ) → Waited
wait_consumer_to_read_all timeout_ms [] = still_waiting
wait_consumer_to_read_all timeout_ms ((head, tail, elapsed_ms) ∷ seen) =
    let rest = wait_consumer_to_read_all timeout_ms seen in
    if head == tail then all_read else (if ltb timeout_ms elapsed_ms then timed_out else rest)
