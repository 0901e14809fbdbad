-- ===== src/Kv/Command.antt =====
-- basisdb-node/src/command.rs: the replicated commands and the state that they are applied to. A
-- call that changes the state returns it, also beside an error. `usize` and `u64` have the same
-- width, so the length of a body is a `u64`.
use basisdb.Base.{
  ℕ, ◌+◌, Bool, true, false, not, ◌&&◌, Option, none, some, [], ◌∷◌, ◌++◌, length, is_empty, ltb,
  if◌then◌else◌, Result, ok, err, Text, lookup, put_key, remove_key, number_keyed, same_text,
  decimal, u64_mod,
}
use Prim.Native.Nat.{compare, Ordering}
use basisdb.Kv.Names.{
  aborted, resource_exhausted, internal, ConnectError, error, KvName, name_keyed, new_name,
  validate_mutation_request, validate_etag, and_then, validate_put_preconditions, validate_value,
}
pub use basisdb.Kv.Types.{
  PutCommand, DeleteCommand, KvCommand, PutResponse, DeleteResponse, KvApplyResult, KvRecord,
  MutationRequest, MutationRejection, MutationResult, SessionState, empty_session, KvState,
  new_state, Applied, connect_error, unknown_session, same_flag, same_name, same_request,
  register_session, read_barrier, put, delete, registered, put_done, delete_done, barrier_done,
  put_request, delete_request, key_exists, etag_mismatch, generation_exhausted, put_result,
  delete_result, rejected,
}

-- `etag_for`: `"c9-` and the digits and `"`
unfoldable pub etag_for : ℕ → Text
etag_for generation = 34 ∷ 99 ∷ 57 ∷ 45 ∷ (decimal 20 generation ++ 34 ∷ [])

-- `SessionState::record` through `session_mut`, with the answer where there is a session
abbrev pub recorded_in :
    Option SessionState → KvState → ℕ → SessionState → Result KvApplyResult ConnectError → Applied
recorded_in none s client_id session answer = (s, err unknown_session)
recorded_in (some old) s client_id session answer =
    (record s { sessions = put_key client_id session s.sessions }, answer)

unfoldable pub record_session :
    KvState → ℕ → ℕ → MutationRequest → MutationResult → Result KvApplyResult ConnectError → Applied
record_session s client_id sequence request result answer =
    recorded_in (lookup client_id s.sessions) s client_id
      (record { sequence = sequence; request = some request; result = some result }) answer

unfoldable pub reject : KvState → ℕ → ℕ → MutationRequest → MutationRejection → Applied
unfolding record_session
reject s client_id sequence request rejection =
    record_session s client_id sequence request (rejected rejection) (err (connect_error rejection))

abbrev pub cached_result :
    Option MutationRequest
    → Option MutationResult
    → MutationRequest
    → Result (Option MutationResult) ConnectError
cached_result (some cached) (some result) request =
    if same_request cached request
    then ok (some result)
    else err (error aborted "sequence reused for different request")
cached_result none none request = err (error internal "session cache is incomplete")
cached_result (some cached) none request = err (error internal "session cache is inconsistent")
cached_result none (some result) request = err (error internal "session cache is inconsistent")

abbrev pub cached_at :
    Ordering → SessionState → MutationRequest → Result (Option MutationResult) ConnectError
cached_at Ordering.lt session request = err (error aborted "stale client sequence")
cached_at Ordering.gt session request = ok none
cached_at Ordering.eq session request = cached_result session.request session.result request

unfoldable pub cached_mutation :
    SessionState → ℕ → MutationRequest → Result (Option MutationResult) ConnectError
cached_mutation session sequence request =
    cached_at (compare sequence session.sequence) session request

-- `cached_mutation` of the client's session.
abbrev pub cached_in :
    Option SessionState → ℕ → MutationRequest → Result (Option MutationResult) ConnectError
cached_in none sequence request = err unknown_session
cached_in (some session) sequence request = cached_mutation session sequence request

unfoldable pub cached_for :
    KvState → ℕ → ℕ → MutationRequest → Result (Option MutationResult) ConnectError
cached_for s client_id sequence request = cached_in (lookup client_id s.sessions) sequence request

abbrev pub session_mismatch : ConnectError
session_mismatch = error internal "session result mismatch"

-- The matches of `cached_put` and `cached_delete`.
abbrev pub as_put : Option MutationResult → Result (Option PutResponse) ConnectError
as_put none = ok none
as_put (some (put_result r)) = ok (some r)
as_put (some (rejected x)) = err (connect_error x)
as_put (some (delete_result r)) = err session_mismatch

abbrev pub as_delete : Option MutationResult → Result (Option DeleteResponse) ConnectError
as_delete none = ok none
as_delete (some (delete_result r)) = ok (some r)
as_delete (some (rejected x)) = err (connect_error x)
as_delete (some (put_result r)) = err session_mismatch

abbrev pub none_or_other : Option KvRecord → Text → Bool
none_or_other none etag = true
none_or_other (some r) etag = not (same_text r.etag etag)

abbrev pub is_there : Option KvRecord → Bool
is_there none = false
is_there (some r) = true

unfoldable pub check_put_preconditions :
    Option KvRecord → Text → Bool → Result (Unit {0}) MutationRejection
check_put_preconditions current if_match if_none_match =
    if if_none_match && is_there current
    then err key_exists
    else if not (is_empty if_match) && none_or_other current if_match
    then err etag_mismatch
    else ok tt

-- The end of `apply_put`: the generation is taken, the record stored, the session updated.
unfoldable pub put_stored : KvState → PutCommand → KvName → Applied
unfolding record_session
put_stored s p name =
    let generation = s.next_generation in
    let etag = etag_for generation in
    let response : PutResponse = record {
      namespace = name.namespace;
      key = name.key;
      etag = etag;
      generation = generation;
      size = length p.body;
    } in
    record_session
      (record s {
        next_generation = generation + 1;
        entries =
            put_key name (record { body = p.body; etag = etag; generation = generation }) s.entries;
      })
      p.client_id p.sequence (put_request name p.body p.if_match p.if_none_match)
      (put_result response) (ok (put_done response))

-- `apply_put` for a request that the session does not know.
unfoldable pub put_new : KvState → PutCommand → KvName → Applied
unfolding put_stored reject check_put_preconditions
put_new s p name =
    let request = put_request name p.body p.if_match p.if_none_match in
    elim (check_put_preconditions (lookup name s.entries) p.if_match p.if_none_match) [
      | err rejection ↦ reject s p.client_id p.sequence request rejection
      | ok u ↦
          if ltb (s.next_generation + 1) u64_mod
          then put_stored s p name
          else reject s p.client_id p.sequence request generation_exhausted
    ]

-- The tests with which `apply_put` begins.
unfoldable pub check_put : PutCommand → Result KvName ConnectError
unfolding validate_mutation_request validate_put_preconditions validate_value new_name
check_put p = and_then (validate_mutation_request p.client_id p.sequence) (λ _.
    and_then (validate_put_preconditions p.if_match p.if_none_match)
      (λ _. and_then (validate_value p.body) (λ _. new_name p.namespace p.key)))

-- `apply_put` from the answer of `cached_put`
unfoldable pub put_answered :
    KvState → PutCommand → KvName → Result (Option PutResponse) ConnectError → Applied
unfolding put_new
put_answered s p name (err e) = (s, err e)
put_answered s p name (ok (some response)) = (s, ok (put_done response))
put_answered s p name (ok none) = put_new s p name

unfoldable pub put_named : KvState → PutCommand → KvName → Applied
unfolding put_answered cached_for
put_named s p name =
    let request = put_request name p.body p.if_match p.if_none_match in
    put_answered s p name (and_then (cached_for s p.client_id p.sequence request) as_put)

unfoldable pub apply_put : KvState → PutCommand → Applied
unfolding check_put put_named
apply_put s p = elim (check_put p) [ err e ↦ (s, err e) | ok name ↦ put_named s p name ]

abbrev pub deleted_response : KvName → Option KvRecord → DeleteResponse
deleted_response name none = record {
  namespace = name.namespace;
  key = name.key;
  etag = [];
  generation = 0;
  deleted = false;
}
deleted_response name (some r) = record {
  namespace = name.namespace;
  key = name.key;
  etag = r.etag;
  generation = r.generation;
  deleted = true;
}

-- The end of `apply_delete`: the record is removed, the session updated.
unfoldable pub delete_removed : KvState → DeleteCommand → KvName → Applied
unfolding record_session
delete_removed s d name =
    let response = deleted_response name (lookup name s.entries) in
    record_session (record s { entries = remove_key name s.entries }) d.client_id d.sequence
      (delete_request name d.if_match) (delete_result response) (ok (delete_done response))

-- `apply_delete` for a request that the session does not know.
unfoldable pub delete_new : KvState → DeleteCommand → KvName → Applied
unfolding reject delete_removed
delete_new s d name =
    let request = delete_request name d.if_match in
    let current = lookup name s.entries in
    if not (is_empty d.if_match) && none_or_other current d.if_match
    then reject s d.client_id d.sequence request etag_mismatch
    else delete_removed s d name

unfoldable pub check_delete : DeleteCommand → Result KvName ConnectError
unfolding validate_mutation_request validate_etag new_name
check_delete d =
    and_then (validate_mutation_request d.client_id d.sequence)
      (λ _. and_then (validate_etag d.if_match) (λ _. new_name d.namespace d.key))

-- `apply_delete` from the answer of `cached_delete`
unfoldable pub delete_answered :
    KvState → DeleteCommand → KvName → Result (Option DeleteResponse) ConnectError → Applied
unfolding delete_new
delete_answered s d name (err e) = (s, err e)
delete_answered s d name (ok (some response)) = (s, ok (delete_done response))
delete_answered s d name (ok none) = delete_new s d name

unfoldable pub delete_named : KvState → DeleteCommand → KvName → Applied
unfolding delete_answered cached_for
delete_named s d name =
    delete_answered s d name
      (and_then (cached_for s d.client_id d.sequence (delete_request name d.if_match)) as_delete)

unfoldable pub apply_delete : KvState → DeleteCommand → Applied
unfolding check_delete delete_named
apply_delete s d = elim (check_delete d) [ err e ↦ (s, err e) | ok name ↦ delete_named s d name ]

-- `RegisterSession`, with `next_client_id`
unfoldable pub register : KvState → Applied
register s =
    let id = s.next_client_id in
    if ltb (id + 1) u64_mod
    then (
      record s { next_client_id = id + 1; sessions = put_key id empty_session s.sessions },
      ok (registered id),
    )
    else (s, err (error resource_exhausted "client id space exhausted"))

unfoldable pub apply : KvState → KvCommand → Applied
unfolding register apply_put apply_delete
apply s register_session = register s
apply s read_barrier = (s, ok barrier_done)
apply s (put p) = apply_put s p
apply s (delete d) = apply_delete s d
