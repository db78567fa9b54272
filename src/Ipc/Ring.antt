-- ===== src/Ipc/Ring.antt =====
-- The ring is a queue of at most 63 messages, oldest first.
use pingweave.Base.{
  sym, ℕ, zero, suc, ◌+◌, ◌-◌, ◌%◌, ◌<◌, ◌≡◌, refl, ap, ap₂, ◌∙◌, ◌≢◌, ◌⊎◌, inl, inr, true, false,
  none, some, List, [], ◌∷◌, ◌++◌, arith, u64, ◌==◌, ==_iff, Bool-cases, length, get_or, set,
  length-set, get_or-set_self, get_or-set_ne,
}
use pingweave.Ipc.{
  Message, SharedData, ProducerQueue, ipc_buffer_size, ipc_message_size, strncpy,
  init_shared_memory, write_message, discard_all_pending_messages, release, consume,
}

pub record IsValid (d : SharedData) : Type 0 where
  pub slots : length d.messages ≡ ipc_buffer_size
  pub head_in : d.head < ipc_buffer_size
  pub tail_in : d.tail < ipc_buffer_size

-- The n slots from h on, going round.
abbrev pub from_slot : List Message → ℕ → ℕ → List Message
from_slot ms h zero = []
from_slot ms h (suc n) = get_or ms h [] ∷ from_slot ms ((h + 1) % ipc_buffer_size) n

abbrev pub pending : SharedData → ℕ
pending d = (d.tail + ipc_buffer_size - d.head) % ipc_buffer_size

-- What the consumer has yet to read.
abbrev pub contents : SharedData → List Message
contents d = from_slot d.messages d.head (pending d)

length-from_slot : (ms : List Message) (h n : ℕ) → length (from_slot ms h n) ≡ n
length-from_slot ms h zero = refl
length-from_slot ms h (suc n) = ap suc (length-from_slot ms ((h + 1) % ipc_buffer_size) n)

pub length-contents : (d : SharedData) → length (contents d) ≡ pending d
length-contents d = length-from_slot d.messages d.head (pending d)

from_slot-set :
    (ms : List Message) (x : Message) (n h i : ℕ)
    → length ms ≡ ipc_buffer_size
    → h < ipc_buffer_size
    → n < ipc_buffer_size
    → i ≡ (h + n) % ipc_buffer_size
    → from_slot (set ms i x) h (suc n) ≡ from_slot ms h n ++ (x ∷ [])
from_slot-set ms x zero h i l p q e =
    let i' : i ≡ h = omega arith in
    rw i' (ap (λ (y : Message). y ∷ []) (get_or-set_self ms h x [] (omega arith)))
from_slot-set ms x (suc n) h i l p q e =
    let ne : i ≢ h = omega arith in
    ap₂ ◌∷◌ (get_or-set_ne ms x [] ne) (
      from_slot-set ms x n ((h + 1) % ipc_buffer_size) i l (omega arith) (omega arith)
        (omega arith))

-- The shared memory as it is set up is valid and empty, given its 64 slots.
pub init_shared_memory_empty :
    (d : SharedData)
    → length d.messages ≡ ipc_buffer_size
    → IsValid (init_shared_memory d) × (contents (init_shared_memory d) ≡ [])
unfolding init_shared_memory
init_shared_memory_empty d l =
    (record { slots = l; head_in = omega arith; tail_in = omega arith }, refl)

-- A message that is not empty goes to the end of the queue, cut as `strncpy` cuts it, if fewer
-- than 63 are waiting. Otherwise it is refused and counted as dropped, and the ring stays as it
-- was. Either way the ring stays valid.
pub write_message_lem :
    (c : ℕ) (cs : Message) (p : ProducerQueue)
    → IsValid p.shared
    → let (p', done) = write_message (c ∷ cs) p in
      let q = contents p.shared in
      IsValid p'.shared
      × (((length q < ipc_buffer_size - 1)
            × (done ≡ true)
            × (contents p'.shared ≡ q ++ (strncpy (c ∷ cs) (ipc_message_size - 1) ∷ []))
            × (p'.n_dropped_msgs ≡ p.n_dropped_msgs))
          ⊎ ((length q ≡ ipc_buffer_size - 1)
              × (done ≡ false)
              × (p'.shared ≡ p.shared)
              × (p'.n_dropped_msgs ≡ u64 (p.n_dropped_msgs + 1))))
unfolding write_message
write_message_lem c cs p v =
    let d = p.shared in
    let l = length-from_slot d.messages d.head (pending d) in
    elim (Bool-cases ((d.tail + 1) % ipc_buffer_size == d.head)) [
      | inl b ↦
          let full : (d.tail + 1) % ipc_buffer_size ≡ d.head = (==_iff _ _).0 b in
          rw b (v, inr (omega (arith, l), refl, refl, refl))
      | inr b ↦
          let room : (d.tail + 1) % ipc_buffer_size ≢ d.head = ground arith in
          let x = strncpy (c ∷ cs) (ipc_message_size - 1) in
          let more : ((d.tail + 1) % ipc_buffer_size + ipc_buffer_size - d.head) % ipc_buffer_size
              ≡ suc (pending d) =
            omega arith in
          rw b (
            record {
              slots = length-set d.messages d.tail x ∙ v.slots;
              head_in = v.head_in;
              tail_in = omega arith;
            },
            inl (
              omega (arith, l),
              refl,
              rw more (
                  from_slot-set d.messages x (pending d) d.head d.tail v.slots v.head_in
                    (omega arith) (omega arith)),
              refl,
            ),
          )
    ]

-- The consumer takes the oldest message, and finds the ring empty exactly if nothing is waiting.
pub consume_lem :
    (d : SharedData)
    → IsValid d
    → ((contents d ≡ []) × (consume d ≡ none))
      ⊎ ((m : Message) × (d' : SharedData) × (consume d ≡ some (m, d'))
          × (contents d ≡ m ∷ contents d')
          × IsValid d')
unfolding consume
consume_lem d v = elim (Bool-cases (d.head == d.tail)) [
  | inl b ↦
      let same : d.head ≡ d.tail = (==_iff _ _).0 b in
      let nothing : pending d ≡ 0 = omega arith in rw b (inl (rw nothing, refl))
  | inr b ↦
      let differ : d.head ≢ d.tail = ground arith in
      let next : SharedData = record d { head = (d.head + 1) % ipc_buffer_size } in
      let fewer : pending d ≡ suc (pending next) = omega arith in
      rw b (
        inr (
          get_or d.messages d.head [],
          next,
          refl,
          rw fewer refl,
          record { slots = v.slots; head_in = omega arith; tail_in = v.tail_in },
        ))
]

-- Discarding leaves a valid ring with nothing to read.
pub discard_empty :
    (p : ProducerQueue)
    → IsValid p.shared
    → let d = (discard_all_pending_messages p).shared in IsValid d × (contents d ≡ [])
unfolding discard_all_pending_messages
discard_empty p v =
    let d = p.shared in
    let nothing : (d.tail + ipc_buffer_size - d.tail) % ipc_buffer_size ≡ 0 = omega arith in
    (record { slots = v.slots; head_in = v.tail_in; tail_in = v.tail_in }, rw nothing)

-- A consumer that comes after the destructor finds nothing to read.
pub consume-release : (p : ProducerQueue) → IsValid p.shared → consume (release p) ≡ none
unfolding release
consume-release p v =
    let (valid, nothing) = discard_empty p v in
    elim (consume_lem (discard_all_pending_messages p).shared valid) [
      | inl (_empty, none_taken) ↦ none_taken
      | inr (m, d', taken, waiting, _valid) ↦
          absurd (omega (arith, ap length (sym nothing ∙ waiting)))
    ]
