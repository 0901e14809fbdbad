-- ===== src/Kv/Once.antt =====
-- command.rs: a mutation that a client sends again after other commands were applied.
use basisdb.Base.{
  ℕ, ◌+◌, ◌<◌, ◌≤◌, ◌≡◌, ◌≢◌, refl, ap, ◌∙◌, inl, inr, Bool, some, List, [], ◌∷◌, ltb,
  if◌then◌else◌, Result, err, Bool-cases, Map, lookup, put_key, lookup-put_key, same_key,
  eq-same_key, number_keyed, if_rule, arith, u64_mod,
}
use basisdb.Kv.Names.{ConnectError}
use basisdb.Kv.Rule.{apply_rule, client_of}
use basisdb.Kv.Valid.{IsValid, record_session-state}
use basisdb.Kv.Retry.{apply_retry}
use basisdb.Kv.Command.{
  KvState, KvCommand, KvApplyResult, Applied, SessionState, MutationRequest, MutationResult,
  empty_session, record_session, reject, put_stored, delete_removed, register, apply, rejected,
  connect_error,
}

-- The commands of a log, one after the other.
unfoldable pub run : KvState → List KvCommand → KvState
unfolding apply
run s [] = s
run s (cmd ∷ cmds) = run (apply s cmd).0 cmds

-- No command of the list is the client's.
abbrev pub AreOthers : ℕ → List KvCommand → Type 0
AreOthers c [] = Unit
AreOthers c (cmd ∷ cmds) = (client_of cmd ≢ some c) × AreOthers c cmds

-- The client ids that were given stay given.
put_other-session :
    (c j : ℕ) (x : SessionState) (m : Map ℕ SessionState)
    → j ≢ c
    → lookup c (put_key j x m) ≡ lookup c m
put_other-session c j x m ne = elim (Bool-cases (same_key j c)) [
  | inl clash ↦ absurd (ne (eq-same_key j c clash))
  | inr other ↦ lookup-put_key j c x m ∙ ap (λ (b : Bool). if b then some x else lookup c m) other
]

-- Another command keeps the client's session, and the ids that were given.
IsKept : ℕ → KvState → Applied → Type 0
IsKept c s a =
    (lookup c a.0.sessions ≡ lookup c s.sessions) × (s.next_client_id ≤ a.0.next_client_id)

record_session-kept :
    (s : KvState) (c j q : ℕ) (r : MutationRequest) (x : MutationResult)
    (answer : Result KvApplyResult ConnectError) {old : SessionState}
    → lookup j s.sessions ≡ some old
    → j ≢ c
    → (lookup c (record_session s j q r x answer).0.sessions ≡ lookup c s.sessions)
      × ((record_session s j q r x answer).0.next_client_id ≡ s.next_client_id)
record_session-kept s c j q r x answer h ne =
    rw (record_session-state s j q r x answer h) (put_other-session c j _ s.sessions ne, refl)

apply-IsKept :
    (s : KvState) (cmd : KvCommand) (c : ℕ)
    → c < s.next_client_id
    → client_of cmd ≢ some c
    → IsKept c s (apply s cmd)
unfolding IsKept reject put_stored delete_removed register
apply-IsKept s cmd c given other =
    apply_rule (IsKept c s) s cmd (λ _. (refl, ground arith))
      (λ j q r x old mine h.
        let kept =
          record_session-kept s c j q r (rejected x) (err (connect_error x)) h
            (λ e. other (mine ∙ ap some e)) in
        (kept.0, ground (arith, kept.1)))
      (λ p name old mine _ h _ _.
        let kept =
          record_session-kept _ c p.client_id p.sequence _ _ _ h
            (λ e. other (ap client_of mine ∙ ap some e)) in
        (kept.0, ground (arith, kept.1)))
      (λ d name old mine _ h.
        let kept =
          record_session-kept _ c d.client_id d.sequence _ _ _ h
            (λ e. other (ap client_of mine ∙ ap some e)) in
        (kept.0, ground (arith, kept.1)))
      (if_rule (IsKept c s) (ltb (s.next_client_id + 1) u64_mod)
        (λ _. (
          put_other-session c s.next_client_id empty_session s.sessions (λ e. ground (arith, e)),
          ground arith,
        ))
        (λ _. (refl, ground arith)))

run-sessions :
    (s : KvState) (cmds : List KvCommand) (c : ℕ)
    → c < s.next_client_id
    → AreOthers c cmds
    → lookup c (run s cmds).sessions ≡ lookup c s.sessions
unfolding run IsKept
run-sessions s [] c given others = refl
run-sessions s (cmd ∷ cmds) c given others =
    let kept = apply-IsKept s cmd c given others.0 in
    run-sessions (apply s cmd).0 cmds c (ground (arith, given, kept.1)) others.1 ∙ kept.0

-- No command takes back an id.
record_session-clients :
    (s : KvState) (j q : ℕ) (r : MutationRequest) (x : MutationResult)
    (answer : Result KvApplyResult ConnectError) {old : SessionState}
    → lookup j s.sessions ≡ some old
    → s.next_client_id ≤ (record_session s j q r x answer).0.next_client_id
record_session-clients s j q r x answer h =
    rw (record_session-state s j q r x answer h) (ground arith)

apply-clients : (s : KvState) (cmd : KvCommand) → s.next_client_id ≤ (apply s cmd).0.next_client_id
unfolding reject put_stored delete_removed register
apply-clients s cmd =
    apply_rule (λ a. s.next_client_id ≤ a.0.next_client_id) s cmd (λ _. ground arith)
      (λ j q r x old _ h. record_session-clients s j q r (rejected x) (err (connect_error x)) h)
      (λ p name old _ _ h _ _. record_session-clients _ p.client_id p.sequence _ _ _ h)
      (λ d name old _ _ h. record_session-clients _ d.client_id d.sequence _ _ _ h)
      (if_rule (λ (a : Applied). s.next_client_id ≤ a.0.next_client_id)
        (ltb (s.next_client_id + 1) u64_mod) (λ _. ground arith) (λ _. ground arith))

-- In a valid state where the client of a put or a delete has a session, applying the command,
-- then any commands that are not the client's, then the same command again gives the first answer
-- once more and leaves the state as the others left it.
pub run-retry :
    (s : KvState) (cmd : KvCommand) (later : List KvCommand) (c : ℕ) (x : SessionState)
    → IsValid s
    → client_of cmd ≡ some c
    → lookup c s.sessions ≡ some x
    → AreOthers c later
    → apply (run (apply s cmd).0 later) cmd ≡ (run (apply s cmd).0 later, (apply s cmd).1)
run-retry s cmd later c x v mine here others =
    let given = v.sessions_given c x here in
    apply_retry s (run (apply s cmd).0 later) cmd c mine
      (run-sessions (apply s cmd).0 later c (ground (arith, given, apply-clients s cmd)) others)
