-- ===== src/Bus.antt =====
-- `KafkaBus.consume` of src/aegis_common/kafka.py on one partition of a topic: the records of the
-- partition, the position from which the running consumer reads next, and the offset that its
-- group has committed. A consumer that starts reads from the committed offset; `commit` commits
-- the position, which is the documented behaviour of the client without arguments.
pub mod Laws
pub mod Delivery
pub mod CaughtUp
pub mod Keeps
use aegis_project.Prelude.{
  ℕ, ◌+◌, Bool, true, false, Option, none, some, List, [], ◌∷◌, ◌++◌, get_elem?,
}

pub record Consumer (R : Type 0) : Type 0 where
  pub log : List R
  pub position : ℕ
  pub committed : ℕ

-- A handler, with the state that it changes; false where it raises.
abbrev pub Handler : Type 0 → Type 0 → Type 0
Handler R S = R → S → Bool × S

-- `consumer.commit()` commits the position, or raises.
abbrev pub commit_if : {R : Type 0} → Bool → Consumer R → Consumer R
commit_if true c = record c { committed = c.position }
commit_if false c = c

module _ {R S : Type 0} (handler : Handler R S) where
  -- The body of the loop on the next record: the handler, then the commit, which fails where
  -- `commits` is false. After a handler or a commit that raises, the committed offset is as
  -- before, and the loop goes on behind the record; what the handler did stays done.
  unfoldable pub handle_next : Bool → Option R → Consumer R × S → Consumer R × S
  handle_next commits none (c, s) = (c, s)
  handle_next commits (some r) (c, s) =
      let (ok, s') = handler r s in
      elim ok [
        | true ↦ (commit_if commits (record c { position = c.position + 1 }), s')
        | false ↦ (record c { position = c.position + 1 }, s')
      ]

  unfoldable pub poll : Bool → Consumer R × S → Consumer R × S
  unfolding handle_next
  poll commits (c, s) = handle_next commits (get_elem? c.log c.position) (c, s)

-- `consumer.stop()` or a crash, and the next start of the group's consumer.
unfoldable pub restart : {R : Type 0} → Consumer R → Consumer R
restart c = record c { position = c.committed }

-- `publish` on the partition.
unfoldable pub append_record : {R : Type 0} → R → Consumer R → Consumer R
append_record r c = record c { log = c.log ++ r ∷ [] }

-- What can happen to a partition and its group: a publication, a round of the loop (with false
-- where the commit raises) and a restart. A process that ends between the handler and the commit
-- is a round with false and a restart.
pub data Event (R : Type 0) : Type 0 where
  published : R → Event R
  polled : Bool → Event R
  restarted : Event R

module _ {R S : Type 0} (handler : Handler R S) where
  unfoldable pub step : Event R → Consumer R × S → Consumer R × S
  unfolding poll restart append_record
  step (Event.published r) (c, s) = (append_record r c, s)
  step (Event.polled commits) p = poll handler commits p
  step Event.restarted (c, s) = (restart c, s)

  unfoldable pub run : List (Event R) → Consumer R × S → Consumer R × S
  unfolding step
  run [] p = p
  run (e ∷ es) p = run es (step e p)
