-- ===== src/Supervisor.antt =====
-- The supervising loops at the end of `rdma_server` (src/rdma_server.cpp), `rdma_client`
-- (src/rdma_client.cpp), `udp_client` (src/udp_client.cpp) and `tcp_client` (src/tcp_client.cpp):
-- once a second the flag of each thread is read; where it is down, an alarm is posted, the thread is
-- joined, a second alarm is posted, the flag is raised, and the thread is started again.
--
-- Threads and supervisor interleave: the statements that the other side can see are steps. As the
-- C++ standard has it, an exception that leaves the function of a thread, and `throw;` with none to
-- throw again, end the process; `join` waits for a function that returns.
pub mod Restart
pub mod Lawful
pub mod Programs
pub mod Clients
mod Tests
use pingweave.Base.{
  ℕ, zero, suc, ◌+◌, ◌<◌, ◌≡◌, Bool, true, false, Option, none, some, List, [], ◌∷◌, ◌++◌,
  if◌then◌else◌, get_elem?, get_or, set, length, ◌==◌,
}
use pingweave.Threads.{Ending, running, returned, escaped, bare_throw}

-- A thread: at work, its flag lowered and its function about to end, or its function returned.
pub data Life : Type 0 where
  working : Life
  leaving : Ending → Life
  joinable : Life

pub record Worker : Type 0 where
  pub alive : Bool
  pub life : Life

-- The messages that go to `message_to_http_server`, of the thread with that number.
pub data Alarm : Type 0 where
  unexpected_termination restarted : ℕ → Alarm

-- Where the supervisor stands: it is to look at a thread's flag, or it joins that thread.
pub data Position : Type 0 where
  looking joining : ℕ → Position

pub record Process : Type 0 where
  pub workers : List Worker
  pub position : Position
  pub alarms : List Alarm
  pub terminated : Bool

abbrev pub new_worker : Worker
new_worker = record { alive = true; life = working }

abbrev pub no_worker : Worker
no_worker = record { alive = true; life = joinable }

abbrev pub worker_at : ℕ → Process → Worker
worker_at i p = get_or p.workers i no_worker

abbrev pub put_worker : ℕ → Worker → Process → Process
put_worker i w p = record p { workers = set p.workers i w }

-- The thread behind the last one is the first.
abbrev pub after : ℕ → Process → ℕ
after i p = if i + 1 == length p.workers then 0 else i + 1

-- What becomes of the process when a thread's function ends.
unfoldable pub end_function : ℕ → Ending → Process → Process
end_function i running p = p
end_function i returned p = put_worker i (record (worker_at i p) { life = joinable }) p
end_function i escaped p = record p { terminated = true }
end_function i bare_throw p = record p { terminated = true }

-- The function's last store to its flag, before it ends.
unfoldable pub lower_flag : ℕ → Ending → Process → Process
lower_flag i ending p = put_worker i (record { alive = false; life = leaving ending }) p

-- The supervisor reads the flag of a thread.
unfoldable pub look : ℕ → Process → Process
look i p =
    if (worker_at i p).alive
    then record p { position = looking (after i p) }
    else record p { alarms = p.alarms ++ (unexpected_termination i ∷ []); position = joining i }

-- The supervisor has joined a thread.
unfoldable pub restart : ℕ → Process → Process
restart i p = record (put_worker i new_worker p) {
  alarms = p.alarms ++ (restarted i ∷ []);
  position = looking (after i p);
}

-- `ends i alive ending`: the function of thread i can end so, leaving its flag so.
module _ (ends : ℕ → Bool → Ending → Type 0) where
  pub data Step (p : Process) : Process → Type 0 where
    fails :
        (i : ℕ) (ending : Ending)
        → p.terminated ≡ false
        → (worker_at i p).life ≡ working
        → ends i false ending
        → Step p (lower_flag i ending p)
    leaves :
        (i : ℕ) (ending : Ending)
        → p.terminated ≡ false
        → (worker_at i p).life ≡ leaving ending
        → Step p (end_function i ending p)
    leaves_at_once :
        (i : ℕ) (ending : Ending)
        → p.terminated ≡ false
        → (worker_at i p).life ≡ working
        → ends i true ending
        → Step p (end_function i ending p)
    looks : (i : ℕ) → p.terminated ≡ false → p.position ≡ looking i → Step p (look i p)
    joins :
        (i : ℕ)
        → p.terminated ≡ false
        → p.position ≡ joining i
        → i < length p.workers
        → (worker_at i p).life ≡ joinable
        → Step p (restart i p)

  pub data Reach (first : Process) : Process → Type 0 where
    here : Reach first first
    next : {p q : Process} → Reach first p → Step p q → Reach first q

-- The process as its main function starts the threads.
abbrev pub workers : ℕ → List Worker
workers zero = []
workers (suc n) = new_worker ∷ workers n

abbrev pub launched : ℕ → Process
launched n = record { workers = workers n; position = looking 0; alarms = []; terminated = false }
