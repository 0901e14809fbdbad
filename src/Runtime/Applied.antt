-- ===== src/Runtime/Applied.antt =====
-- runtime.rs: the committed commands are applied once each, in order.
use mathlib.Core.Path.{subst}
use mathlib.Core.List.{head-eq_of_cons-eq, tail-eq_of_cons-eq}
use basisdb.Base.{
  ℕ, zero, suc, ◌+◌, ◌-◌, ◌≡◌, ◌<◌, ◌≤◌, refl, sym, ap, ◌∙◌, Option, none, some, List, [], ◌∷◌,
  ◌++◌, length, u64_mod, add64, add64_lem, arith,
}
use basisdb.Raft.Log.{Log, Entry, EntryPayload, command, config, get}
use basisdb.Raft.Log.Valid.{IsValid}
use basisdb.Raft.Log.View.{index-get}
use basisdb.Raft.Core.{log_of}
use basisdb.Raft.Node.{Node, CommittedEntry, committed_entry, committed_from, committed, advance}
use basisdb.Kv.Command.{KvState, KvCommand}
use basisdb.Runtime.{
  Runtime, apply_command, apply_entry, apply_rounds, apply_committed, complete_waiter,
}

-- The list goes on behind its first entry.
committed_from-rest :
    (log : Log) (i rounds : ℕ) (e : CommittedEntry) (rest : List CommittedEntry)
    → IsValid log
    → committed_from log i rounds ≡ e ∷ rest
    → (i ≤ e.index)
      × (e.index < i + rounds)
      × (committed_from log (e.index + 1) (i + rounds - (e.index + 1)) ≡ rest)
unfolding committed_from
committed_from-rest log i zero e rest v h = absurd (ground (arith, h))
committed_from-rest log i (suc rounds) e rest v h =
    go (get log i) refl (committed_from-rest log (i + 1) rounds e rest v) h
  where
    IsRest : Type 0
    IsRest =
        (i ≤ e.index)
        × (e.index < i + suc rounds)
        × (committed_from log (e.index + 1) (i + suc rounds - (e.index + 1)) ≡ rest)

    Later : Type 0
    Later =
        committed_from log (i + 1) rounds ≡ e ∷ rest
        → (i + 1 ≤ e.index)
          × (e.index < i + 1 + rounds)
          × (committed_from log (e.index + 1) (i + 1 + rounds - (e.index + 1)) ≡ rest)

    later : Later → committed_from log (i + 1) rounds ≡ e ∷ rest → IsRest
    later more k =
        let found = more k in
        let same : i + suc rounds - (e.index + 1) ≡ i + 1 + rounds - (e.index + 1) = omega arith in
        (
          omega (arith, found.0),
          omega (arith, found.1),
          ap (λ n. committed_from log (e.index + 1) n) same ∙ found.2,
        )

    by_payload :
        (entry : Entry) (p : EntryPayload)
        → entry.payload ≡ p
        → get log i ≡ some entry
        → Later
        → elim p [
          | command cmd ↦ record { index = entry.index; term = entry.term; command = cmd } ∷ []
          | config cfg ↦ []
        ]
            ++ committed_from log (i + 1) rounds
          ≡ e ∷ rest
        → IsRest
    by_payload entry (config cfg) is found more k = later more k
    by_payload entry (command cmd) is found more k =
        let here : e.index ≡ i =
          ap (λ (c : CommittedEntry). c.index) (sym (head-eq_of_cons-eq k))
          ∙ index-get log i entry v found in
        let next : e.index + 1 ≡ i + 1 = omega (arith, here) in
        let left : i + suc rounds - (e.index + 1) ≡ rounds = omega (arith, here) in
        (
          omega (arith, here),
          omega (arith, here),
          ap (λ n. committed_from log n (i + suc rounds - (e.index + 1))) next
              ∙ ap (committed_from log (i + 1)) left
              ∙ tail-eq_of_cons-eq k,
        )

    go :
        (o : Option Entry)
        → get log i ≡ o
        → Later
        → committed_entry o ++ committed_from log (i + 1) rounds ≡ e ∷ rest
        → IsRest
    go none found more k = later more k
    go (some entry) found more k = by_payload entry entry.payload refl found more k

-- The log of a node is well-formed, and its counters have their order and their width.
pub record IsSound (n : Node) : Type 0 where
  pub log_is : IsValid (log_of n.core)
  pub applied_le : n.core.last_applied ≤ n.core.commit_index
  pub fits : n.core.commit_index + 1 < u64_mod

-- After the first committed command is acknowledged, the others are left.
committed-advance :
    (n : Node) (e : CommittedEntry) (rest : List CommittedEntry)
    → IsSound n
    → committed n ≡ e ∷ rest
    → IsSound (advance n e.index) × (committed (advance n e.index) ≡ rest)
unfolding committed advance
committed-advance n e rest v h =
    let log = log_of n.core in
    let end : add64 n.core.commit_index 1 ≡ n.core.commit_index + 1 =
      add64_lem n.core.commit_index 1 v.fits in
    let start : add64 n.core.last_applied 1 ≡ n.core.last_applied + 1 =
      add64_lem n.core.last_applied 1 (omega (arith, v.fits, v.applied_le)) in
    let found =
      committed_from-rest log (add64 n.core.last_applied 1)
        (add64 n.core.commit_index 1 - add64 n.core.last_applied 1) e rest v.log_is h in
    let up_to : e.index ≤ n.core.commit_index = omega (arith, found.1, start, end, v.applied_le) in
    let next : add64 e.index 1 ≡ e.index + 1 = add64_lem e.index 1 (omega (arith, up_to, v.fits)) in
    let left : add64 n.core.commit_index 1 - (e.index + 1)
        ≡ add64 n.core.last_applied 1
          + (add64 n.core.commit_index 1 - add64 n.core.last_applied 1)
          - (e.index + 1) =
      omega (arith, start, end, v.applied_le) in
    (
      record { log_is = v.log_is; applied_le = up_to; fits = v.fits },
      ap (λ k. committed_from log k (add64 n.core.commit_index 1 - k)) next
          ∙ ap (committed_from log (e.index + 1)) left
          ∙ found.2,
    )

module _ (decode_command : List ℕ → Option KvCommand) where
  -- The commands of a list, one after the other.
  unfoldable pub apply_all : KvState → List CommittedEntry → KvState
  unfolding apply_command
  apply_all s [] = s
  apply_all s (e ∷ entries) = apply_all (apply_command decode_command s e.command).0 entries

  apply_rounds-step :
      (rounds : ℕ) (rt : Runtime) (entries : List CommittedEntry)
      → committed rt.node ≡ entries
      → apply_rounds decode_command (suc rounds) rt ≡ elim entries [
        | [] ↦ rt
        | e ∷ rest ↦ apply_rounds decode_command rounds (apply_entry decode_command rt e)
      ]
  unfolding apply_rounds
  apply_rounds-step rounds rt entries h =
      ap
        (λ (l : List CommittedEntry). elim l [
          | [] ↦ rt
          | e ∷ rest ↦ apply_rounds decode_command rounds (apply_entry decode_command rt e)
        ])
        h

  apply_rounds-all :
      (rounds : ℕ) (rt : Runtime) (entries : List CommittedEntry)
      → IsSound rt.node
      → committed rt.node ≡ entries
      → length entries ≤ rounds
      → let t = apply_rounds decode_command rounds rt in
        (committed t.node ≡ []) × (t.state ≡ apply_all rt.state entries)
  unfolding apply_rounds apply_all apply_entry complete_waiter
  apply_rounds-all zero rt [] v h fits = (h, refl)
  apply_rounds-all zero rt (e ∷ entries) v h fits = absurd (omega (arith, fits))
  apply_rounds-all (suc rounds) rt [] v h fits =
      subst (λ (t : Runtime). (committed t.node ≡ []) × (t.state ≡ apply_all rt.state []))
        (sym (apply_rounds-step rounds rt [] h)) (h, refl)
  apply_rounds-all (suc rounds) rt (e ∷ entries) v h fits =
      let after = committed-advance rt.node e entries v h in
      subst
        (λ (t : Runtime). (committed t.node ≡ []) × (t.state ≡ apply_all rt.state (e ∷ entries)))
        (sym (apply_rounds-step rounds rt (e ∷ entries) h))
        (apply_rounds-all rounds (apply_entry decode_command rt e) entries after.0 after.1
          (omega (arith, fits)))

  -- Where the node's log is well-formed, the last applied index is not above the commit index and
  -- the commit index is below the last u64, applying the committed entries leaves no committed
  -- command unapplied, and the key-value state is the one after all of them, once each and in the
  -- order of the log.
  pub apply_committed-all :
      (rt : Runtime)
      → IsSound rt.node
      → (committed (apply_committed decode_command rt).node ≡ [])
        × ((apply_committed decode_command rt).state ≡ apply_all rt.state (committed rt.node))
  unfolding apply_committed
  apply_committed-all rt v =
      apply_rounds-all (length (committed rt.node)) rt (committed rt.node) v refl (omega arith)
