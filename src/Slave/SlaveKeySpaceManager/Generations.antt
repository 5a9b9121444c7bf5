-- ===== src/Slave/SlaveKeySpaceManager/Generations.antt =====
-- The generations of the key space of a slave group (src/slave/SlaveKeySpaceManager.cc).
use universal_db.Base.{
  ℕ, ◌+◌, ◌≡◌, ◌<◌, refl, List, [], ◌∷◌, map, arith, inc32, inc32_lem, u32_mod, Bool-cases, inl,
  inr,
}
use universal_db.Base.Eq.{◌==◌, nat_eq}
use universal_db.Base.Result.{Result, ok, assert, Ensures, Ensures-ok, Ensures-bind}
use universal_db.Net.EndpointId.{EndpointId}
use universal_db.Proto.Wrapper.{KeySpaceSelection}
use universal_db.Async.Queue.{terminate}
use universal_db.Paxos.Single.{SinglePaxosHandler}
use universal_db.Server.KeySpaceRange.{KeySpaceRange, convert}
use universal_db.Slave.TabletParticipantManager.{handle_key_space_change}
use universal_db.Slave.SlaveKeySpaceManager.{
  SlaveState, SlaveNode, ChangeTask, on_key_space_changed, changed_of, changed_entry, change_task,
  reply,
}

module _ {P : Type 0} where
  -- What the entry of a selection makes of the state.
  abbrev pub Changed :
      (KeySpaceRange → P) → KeySpaceSelection → SlaveState P → SlaveState P → Type 0
  Changed tp_provider m s s' =
      (m.generation ≡ inc32 s.key_space.generation)
      × (s'.key_space.generation ≡ m.generation)
      × (s'.key_space.ranges ≡ map convert m.new_ranges)
      × (s'.participants
          ≡ handle_key_space_change tp_provider (map convert m.new_ranges) s.participants)

  on_key_space_changed-Changed :
      (tp_provider : KeySpaceRange → P) (masters : List EndpointId) (m : KeySpaceSelection)
      (index : ℕ) (s : SlaveState P)
      → Ensures
          (Changed tp_provider m s)
          (on_key_space_changed tp_provider masters index (changed_entry m) s)
  unfolding on_key_space_changed changed_entry changed_of reply
  on_key_space_changed-Changed tp_provider [] m index s =
      Ensures-bind _ (assert (m.generation == inc32 s.key_space.generation)) _ (λ _ _. tt)
  on_key_space_changed-Changed tp_provider (master ∷ masters) m index s =
      elim (Bool-cases (m.generation == inc32 s.key_space.generation)) [
        | inl next ↦ rw next (ground (arith, next), refl, refl, refl)
        | inr other ↦ rw other tt
      ]

  module _ (instance_provider : ℕ → SlaveState P → Result SinglePaxosHandler) (random : ℕ → ℕ) where
    -- When the entry of a selection has come in at a slave, its generation is one higher and its
    -- ranges are the selected ones; and the next call of the task of the selection ends it with
    -- one reply, of that generation, to the master that asked.
    pub change_committed :
        (tp_provider : KeySpaceRange → P) (masters : List EndpointId) (t : ChangeTask) (index : ℕ)
        (n : SlaveNode P) (s' : SlaveState P)
        → n.state.key_space.generation + 2 < u32_mod
        → on_key_space_changed tp_provider masters index (changed_entry t.message) n.state ≡ ok s'
        → Changed tp_provider t.message n.state s'
          × (change_task instance_provider random t (record n { state = s' })
              ≡ ok (
                t,
                record n { state = reply (t.endpoint_id ∷ []) t.message.generation s' },
                terminate,
              ))
    unfolding change_task
    change_committed tp_provider masters t index n s' w e =
        let c =
          Ensures-ok _
            (on_key_space_changed tp_provider masters index (changed_entry t.message) n.state)
            (on_key_space_changed-Changed tp_provider masters t.message index n.state) e in
        (
          c,
          ground (
            arith,
            c.0,
            c.1,
            inc32_lem n.state.key_space.generation,
            inc32_lem s'.key_space.generation,
          ),
        )
