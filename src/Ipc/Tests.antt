-- ===== src/Ipc/Tests.antt =====
-- Runs of the ring, and instances of its theorems.
use pingweave.Base.{
  ℕ, zero, suc, ◌+◌, ◌-◌, ◌<◌, ◌≡◌, refl, ◌⊎◌, true, false, some, List, [], ◌∷◌, ◌++◌, arith, u64,
  length, set,
}
use pingweave.Ipc.{
  Message, SharedData, ProducerQueue, write_message, strncpy, ipc_message_size, ipc_buffer_size,
}
use pingweave.Ipc.Ring.{IsValid, contents, write_message_lem}
use pingweave.Ipc.{read_messages}
use pingweave.Ipc.Fifo.{
  System, after_write, init, IsFifo, Reach-IsFifo, start, later, writes, read_messages_all,
}

abbrev slots : ℕ → List Message
slots zero = []
slots (suc n) = [] ∷ slots n

-- One message in the last slot, so that the tail has gone round.
abbrev ring : SharedData
ring = record { messages = set (slots 64) 63 (5 ∷ []); head = 63; tail = 0 }

abbrev producer : ProducerQueue
producer = record { shared = ring; n_dropped_msgs = 0 }

ring-IsValid : IsValid ring
ring-IsValid = omega arith

write_runs : contents (write_message (6 ∷ 0 ∷ 9 ∷ []) producer).0.shared ≡ (5 ∷ []) ∷ (6 ∷ []) ∷ []
unfolding write_message strncpy
write_runs = refl

write_message_lem_example :
    let (p', done) = write_message (6 ∷ 7 ∷ []) producer in
    let q = contents ring in
    IsValid p'.shared
    × (((length q < ipc_buffer_size - 1)
          × (done ≡ true)
          × (contents p'.shared ≡ q ++ (strncpy (6 ∷ 7 ∷ []) (ipc_message_size - 1) ∷ []))
          × (p'.n_dropped_msgs ≡ 0))
        ⊎ ((length q ≡ ipc_buffer_size - 1)
            × (done ≡ false)
            × (p'.shared ≡ ring)
            × (p'.n_dropped_msgs ≡ u64 (0 + 1))))
write_message_lem_example = write_message_lem 6 (7 ∷ []) producer ring-IsValid

-- A run of both sides: a write and a read.
abbrev blank_memory : SharedData
blank_memory = record { messages = slots 64; head = 9; tail = 7 }

abbrev written_once : System
written_once = after_write 6 (7 ∷ []) (init blank_memory)

Reach-IsFifo_example : IsFifo written_once
Reach-IsFifo_example = Reach-IsFifo blank_memory written_once refl (later start (writes 6 (7 ∷ [])))

read_messages_all_example :
    (last : SharedData) × (read_messages 5 ring ≡ some (contents ring, last))
    × (contents last ≡ [])
    × IsValid last
read_messages_all_example = read_messages_all 5 ring ring-IsValid (omega arith)
