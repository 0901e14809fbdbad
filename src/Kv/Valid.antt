-- ===== src/Kv/Valid.antt =====
-- command.rs: what holds of every state of the key-value machine.
use basisdb.Base.{
  ℕ, ◌+◌, ◌<◌, ◌≡◌, sym, ap, ◌∙◌, ◌⊎◌, inl, inr, true, some, List, ltb, ltb→lt, Result, err,
  Bool-cases, Map, Keyed, lookup, put_key, remove_key, lookup-put_key, lookup-remove_key, same_key,
  eq-same_key, number_keyed, if_rule, arith, u64_mod,
}
use basisdb.Kv.Names.{ConnectError, KvName, name_keyed}
use basisdb.Kv.Rule.{apply_rule}
use basisdb.Kv.Command.{
  KvState, KvCommand, KvRecord, KvApplyResult, Applied, SessionState, MutationRequest,
  MutationResult, new_state, record_session, recorded_in, reject, put_stored, delete_removed,
  register, apply, etag_for, rejected, connect_error,
}

-- What a lookup after an insertion finds is the new value or was there.
pub put_key-found :
    {K V : Type 0} ⦃o : Keyed K⦄
    → (k j : K) (v w : V) (m : Map K V) → lookup j (put_key k v m) ≡ some w
    → ((k ≡ j) × (v ≡ w)) ⊎ (lookup j m ≡ some w)
put_key-found k j v w m h = elim (Bool-cases (same_key k j)) [
  | inl new ↦ inl (eq-same_key k j new, ground (arith, h, lookup-put_key k j v m, new))
  | inr old ↦ inr (ground (arith, h, lookup-put_key k j v m, old))
]

pub remove_key-found :
    {K V : Type 0} ⦃o : Keyed K⦄
    → (k j : K) (w : V) (m : Map K V) → lookup j (remove_key k m) ≡ some w
    → lookup j m ≡ some w
remove_key-found k j w m h = elim (Bool-cases (same_key k j)) [
  | inl new ↦ absurd (ground (arith, h, lookup-remove_key k j m, new))
  | inr old ↦ ground (arith, h, lookup-remove_key k j m, old)
]

-- The generations and the sessions that were handed out, and the counters that fit `u64`.
pub record IsValid (s : KvState) : Type 0 where
  pub entries_given :
      (name : KvName) (r : KvRecord)
      → lookup name s.entries ≡ some r
      → (r.generation < s.next_generation) × (r.etag ≡ etag_for r.generation)
  pub sessions_given :
      (c : ℕ) (x : SessionState) → lookup c s.sessions ≡ some x → c < s.next_client_id
  pub generation_fits : s.next_generation < u64_mod
  pub client_fits : s.next_client_id < u64_mod

pub new_state-IsValid : IsValid new_state
unfolding lookup
new_state-IsValid = record {
  entries_given = λ name r h. absurd (ground (arith, h));
  sessions_given = λ c x h. absurd (ground (arith, h));
  generation_fits = ground arith;
  client_fits = ground arith;
}

-- A recorded answer changes the sessions alone.
pub record_session-state :
    (s : KvState) (c q : ℕ) (r : MutationRequest) (x : MutationResult)
    (answer : Result KvApplyResult ConnectError) {old : SessionState}
    → lookup c s.sessions ≡ some old
    → record_session s c q r x answer ≡ (
      record s {
        sessions =
            put_key c (record { sequence = q; request = some r; result = some x }) s.sessions;
      },
      answer,
    )
unfolding record_session
record_session-state s c q r x answer h =
    let session : SessionState = record { sequence = q; request = some r; result = some x } in
    ap (λ o. recorded_in o s c session answer) h

-- A new session of a client that has one.
put_session-IsValid :
    (s : KvState) (c : ℕ) (x : SessionState) {old : SessionState}
    → lookup c s.sessions ≡ some old
    → IsValid s
    → IsValid (record s { sessions = put_key c x s.sessions })
put_session-IsValid s c x h v = record {
  entries_given = v.entries_given;
  sessions_given = λ j y found. elim (put_key-found c j x y s.sessions found) [
    | inl new ↦ ground (arith, v.sessions_given c _ h, new.0)
    | inr there ↦ v.sessions_given j y there
  ];
  generation_fits = v.generation_fits;
  client_fits = v.client_fits;
}

record_session-IsValid :
    (s : KvState) (c q : ℕ) (r : MutationRequest) (x : MutationResult)
    (answer : Result KvApplyResult ConnectError) {old : SessionState}
    → lookup c s.sessions ≡ some old
    → IsValid s
    → IsValid (record_session s c q r x answer).0
record_session-IsValid s c q r x answer h v =
    rw (record_session-state s c q r x answer h) (put_session-IsValid s c _ h v)

-- A record of the next generation.
put_entry-IsValid :
    (s : KvState) (name : KvName) (body : List ℕ)
    → ltb (s.next_generation + 1) u64_mod ≡ true
    → IsValid s
    → IsValid (record s {
      next_generation = s.next_generation + 1;
      entries =
          put_key name
            (record {
              body = body;
              etag = etag_for s.next_generation;
              generation = s.next_generation;
            })
            s.entries;
    })
put_entry-IsValid s name body room v = record {
  entries_given = λ j w found. elim (put_key-found name j _ w s.entries found) [
    | inl new ↦
        let generation : s.next_generation ≡ w.generation =
          ap (λ (x : KvRecord). x.generation) new.1 in
        (
          ground (arith, generation),
          sym (ap (λ (x : KvRecord). x.etag) new.1) ∙ ap etag_for generation,
        )
    | inr there ↦ (ground (arith, (v.entries_given j w there).0), (v.entries_given j w there).1)
  ];
  sessions_given = v.sessions_given;
  generation_fits = ltb→lt _ _ room;
  client_fits = v.client_fits;
}

remove_entry-IsValid :
    (s : KvState) (name : KvName)
    → IsValid s
    → IsValid (record s { entries = remove_key name s.entries })
remove_entry-IsValid s name v = record {
  entries_given = λ j w found. v.entries_given j w (remove_key-found name j w s.entries found);
  sessions_given = v.sessions_given;
  generation_fits = v.generation_fits;
  client_fits = v.client_fits;
}

register-IsValid : (s : KvState) → IsValid s → IsValid (register s).0
unfolding register
register-IsValid s v =
    if_rule (λ (a : Applied). IsValid a.0) (ltb (s.next_client_id + 1) u64_mod)
      (λ room. record {
        entries_given = v.entries_given;
        sessions_given = λ j y found. elim (put_key-found s.next_client_id j _ y s.sessions found) [
          | inl new ↦ ground (arith, new.0)
          | inr there ↦ ground (arith, v.sessions_given j y there)
        ];
        generation_fits = v.generation_fits;
        client_fits = ltb→lt _ _ room;
      })
      (λ _. v)

-- Every command leaves a valid state valid: each entry has a generation below the next and the
-- ETag of its generation, each session has a client id below the next, and both counters fit
-- `u64`.
pub apply-IsValid : (s : KvState) (cmd : KvCommand) → IsValid s → IsValid (apply s cmd).0
unfolding reject put_stored delete_removed
apply-IsValid s cmd v =
    apply_rule (λ a. IsValid a.0) s cmd (λ _. v)
      (λ c q r x old _ h. record_session-IsValid s c q r (rejected x) (err (connect_error x)) h v)
      (λ p name old _ _ h _ room.
        record_session-IsValid _ p.client_id p.sequence _ _ _ h
          (put_entry-IsValid s name p.body room v))
      (λ d name old _ _ h.
        record_session-IsValid _ d.client_id d.sequence _ _ _ h (remove_entry-IsValid s name v))
      (register-IsValid s v)
