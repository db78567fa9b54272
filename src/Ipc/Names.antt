-- ===== src/Ipc/Names.antt =====
-- The names under which `ProducerQueue` opens and unlinks its shared memory.
use pingweave.Base.{ℕ, ap, ◌≢◌, List, ◌∷◌, ◌++◌, arith, length, length-append}

-- `prefix_name + "_" + shm_name`, which `initSharedMemory` gives to `shm_open`.
pub opened_name : List ℕ → List ℕ → List ℕ
opened_name prefix_name shm_name = prefix_name ++ (b'_' ∷ shm_name)

-- What the destructor gives to `shm_unlink`.
pub unlinked_name : List ℕ → List ℕ → List ℕ
unlinked_name prefix_name shm_name = shm_name

-- The destructor never unlinks the name that the constructor opened, whatever the two parts are.
pub unlinked_name-ne-opened_name :
    (prefix_name shm_name : List ℕ)
    → unlinked_name prefix_name shm_name ≢ opened_name prefix_name shm_name
unfolding opened_name unlinked_name
unlinked_name-ne-opened_name prefix_name shm_name e =
    omega (arith, ap length e, length-append prefix_name (b'_' ∷ shm_name))
