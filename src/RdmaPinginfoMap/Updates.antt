-- ===== src/RdmaPinginfoMap/Updates.antt =====
-- One update of a waiting ping, on every branch of `logging`.
use pingweave.Base.{
  ℕ, ◌≡◌, ap, ◌∙◌, inl, inr, Bool, true, false, none, some, success, failure, ◌==◌, Bool-cases,
  Option-cases,
}
use pingweave.Common.{Net}
use pingweave.Messages.{RdmaResultMsg}
use pingweave.Table.{Store, Entry, find, erase, modify, remove, erase_node}
use pingweave.Table.Maps.{find-modify, erase-modify}
use pingweave.Table.Linked.{IsValid, Linked-modify, nodes-modify, remove-IsValid}
use pingweave.RdmaPinginfoMap.{RdmaPinginfo, mask_recv, completed, remove_from, logging, update}

module _ {Q : Type 0} where
  abbrev pub edited :
      (RdmaPinginfo → RdmaPinginfo) → ℕ → Store RdmaPinginfo Q → Store RdmaPinginfo Q
  edited f key s = record s { table = record (s.table) { map = modify key f s.table.map } }

  -- The store without the entry of a key, which has the node `i`.
  abbrev pub without : ℕ → ℕ → Store RdmaPinginfo Q → Store RdmaPinginfo Q
  without key i s = record s {
    table = record (s.table) {
      map = erase key s.table.map;
      key_list = erase_node i s.table.key_list;
    };
  }

module _ {Q : Type 0} (try_enqueue : Q → RdmaResultMsg → Q × Bool) (net : Net) where
  pub update_missing :
      (f : RdmaPinginfo → RdmaPinginfo) (key : ℕ) (s : Store RdmaPinginfo Q)
      → find key s.table.map ≡ none
      → update try_enqueue net f key s ≡ (s, failure)
  unfolding update
  update_missing f key s h = rw (h, update)

  pub update_waits :
      (f : RdmaPinginfo → RdmaPinginfo) (key : ℕ) (s : Store RdmaPinginfo Q)
      {e : Entry RdmaPinginfo}
      → find key s.table.map ≡ some e
      → ((f e.value).recv_bitmap == mask_recv) ≡ false
      → update try_enqueue net f key s ≡ (edited f key s, success)
  unfolding update
  update_waits f key s h b = rw (h, update) (rw b)

  remove_edited :
      (f : RdmaPinginfo → RdmaPinginfo) (key i : ℕ) (s : Store RdmaPinginfo Q)
      {e : Entry RdmaPinginfo}
      → i ≡ key
      → find key s.table.map ≡ some e
      → remove_from try_enqueue net i (edited f key s) ≡ without key e.list_iter s
  unfolding remove_from remove
  remove_edited f key i s {e} k h =
      rw k (rw (find-modify key f s.table.map h, remove) (rw (erase-modify key f s.table.map)))

  logging_reports :
      (x : RdmaPinginfo) (s : Store RdmaPinginfo Q)
      → (x.recv_bitmap == mask_recv) ≡ true
      → (x.recv_cnt == 3) ≡ true
      → logging try_enqueue net x s
        ≡ remove_from try_enqueue net x.pingid
            (record s { queue = (try_enqueue s.queue (completed net x)).0 })
  unfolding logging
  logging_reports x s b c = simp (b, c)

  logging_drops :
      (x : RdmaPinginfo) (s : Store RdmaPinginfo Q)
      → (x.recv_bitmap == mask_recv) ≡ true
      → (x.recv_cnt == 3) ≡ false
      → logging try_enqueue net x s ≡ remove_from try_enqueue net x.pingid s
  unfolding logging
  logging_drops x s b c = simp (b, c)

  pub update_reports :
      (f : RdmaPinginfo → RdmaPinginfo) (key : ℕ) (s : Store RdmaPinginfo Q)
      {e : Entry RdmaPinginfo}
      → find key s.table.map ≡ some e
      → ((f e.value).recv_bitmap == mask_recv) ≡ true
      → ((f e.value).recv_cnt == 3) ≡ true
      → (f e.value).pingid ≡ key
      → update try_enqueue net f key s ≡ (
        without key e.list_iter
            (record s { queue = (try_enqueue s.queue (completed net (f e.value))).0 }),
        success,
      )
  unfolding update
  update_reports f key s {e} h b c k =
      rw (h, update)
        (ap (λ x. (x, success))
          (logging_reports (f e.value) (edited f key s) b c
            ∙ remove_edited f key (f e.value).pingid
                (record s { queue = (try_enqueue s.queue (completed net (f e.value))).0 }) k h))

  -- A ping of which all has come in, but not in three messages, goes unreported.
  pub update_drops :
      (f : RdmaPinginfo → RdmaPinginfo) (key : ℕ) (s : Store RdmaPinginfo Q)
      {e : Entry RdmaPinginfo}
      → find key s.table.map ≡ some e
      → ((f e.value).recv_bitmap == mask_recv) ≡ true
      → ((f e.value).recv_cnt == 3) ≡ false
      → (f e.value).pingid ≡ key
      → update try_enqueue net f key s ≡ (without key e.list_iter s, success)
  unfolding update
  update_drops f key s {e} h b c k =
      rw (h, update)
        (ap (λ x. (x, success))
          (logging_drops (f e.value) (edited f key s) b c
            ∙ remove_edited f key (f e.value).pingid s k h))

  edited-IsValid :
      (f : RdmaPinginfo → RdmaPinginfo) (key : ℕ) {now : ℕ} (s : Store RdmaPinginfo Q)
      → IsValid now s.table
      → IsValid now (edited f key s).table
  edited-IsValid f key {now} s v = record {
    aligned = rw (nodes-modify key f s.table.map) v.aligned;
    linked = Linked-modify key s.table.next_iter now 0 0 f s.table.map v.linked;
  }

  logging-IsValid :
      (x : RdmaPinginfo) {now : ℕ} (s : Store RdmaPinginfo Q)
      → IsValid now s.table
      → IsValid now (logging try_enqueue net x s).table
  unfolding logging
  logging-IsValid x s v = elim (Bool-cases (x.recv_bitmap == mask_recv)) [
    | inl b ↦ elim (Bool-cases (x.recv_cnt == 3)) [
      | inl c ↦ rw (b, c) (remove-IsValid x.pingid s.table v)
      | inr c ↦ rw (b, c) (remove-IsValid x.pingid s.table v)
    ]
    | inr b ↦ rw b v
  ]

  -- Every update keeps the table valid.
  pub update-IsValid :
      (f : RdmaPinginfo → RdmaPinginfo) (key : ℕ) {now : ℕ} (s : Store RdmaPinginfo Q)
      → IsValid now s.table
      → IsValid now (update try_enqueue net f key s).0.table
  unfolding update
  update-IsValid f key s v = elim (Option-cases (find key s.table.map)) [
    | inl e ↦ rw (e, update) v
    | inr (e, h) ↦ rw (h, update) (logging-IsValid (f e.value) _ (edited-IsValid f key s v))
  ]
