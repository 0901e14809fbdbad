-- ===== src/Kv/Settled.antt =====
-- command.rs: the answers of a put and a delete after their results were recorded.
use basisdb.Kv.Cached.{
  cached_for-session, record_session-cached, put_named-recorded, put_named-rejected,
  delete_named-recorded, delete_named-rejected,
}
use basisdb.Base.{
  ℕ, ◌+◌, ◌≡◌, refl, sym, ap, ◌∙◌, not, ◌&&◌, Option, none, some, is_empty, ltb, Result, ok, err,
  lookup, put_key, remove_key, number_keyed, if_rule, result_rule, u64_mod, length,
}
use basisdb.Kv.Rule.{as_put-session, as_delete-session}
use basisdb.Kv.Names.{ConnectError, KvName, and_then, name_keyed}
use basisdb.Kv.Command.{
  KvState, PutCommand, DeleteCommand, KvApplyResult, Applied, SessionState, MutationRequest,
  MutationResult, put_request, delete_request, put_result, delete_result, rejected,
  MutationRejection, put_done, delete_done, PutResponse, DeleteResponse, connect_error, etag_for,
  KvRecord, record_session, cached_in, reject, cached_for, as_put, as_delete, put_stored, put_new,
  put_answered, put_named, delete_new, delete_removed, delete_answered, delete_named,
  check_put_preconditions, none_or_other, deleted_response, generation_exhausted, etag_mismatch,
}

-- The put gives, on each state with the session of the outcome, the answer of the outcome.
abbrev pub IsPutSettled : PutCommand → KvName → Applied → Type 0
IsPutSettled p name a =
    (t : KvState)
    → lookup p.client_id t.sessions ≡ lookup p.client_id a.0.sessions
    → put_named t p name ≡ (t, a.1)

abbrev pub IsDeleteSettled : DeleteCommand → KvName → Applied → Type 0
IsDeleteSettled d name a =
    (t : KvState)
    → lookup d.client_id t.sessions ≡ lookup d.client_id a.0.sessions
    → delete_named t d name ≡ (t, a.1)

-- A session of the outcome that answers the request.
cached_for-outcome :
    (s t : KvState) (c q : ℕ) (r : MutationRequest) (x : MutationResult)
    (answer : Result KvApplyResult ConnectError) {old : SessionState}
    → lookup c s.sessions ≡ some old
    → lookup c t.sessions ≡ lookup c (record_session s c q r x answer).0.sessions
    → cached_for t c q r ≡ ok (some x)
cached_for-outcome s t c q r x answer h same =
    cached_for-session (record_session s c q r x answer).0 t c q r same
    ∙ (record_session-cached s c q r x answer h).0

reject-IsPutSettled :
    (s : KvState) (p : PutCommand) (name : KvName) (x : MutationRejection) {old : SessionState}
    → lookup p.client_id s.sessions ≡ some old
    → IsPutSettled p name
        (reject s p.client_id p.sequence (put_request name p.body p.if_match p.if_none_match) x)
unfolding reject
reject-IsPutSettled s p name x h t same =
    let r = put_request name p.body p.if_match p.if_none_match in
    let answer : Result KvApplyResult ConnectError = err (connect_error x) in
    put_named-rejected t p name x
      (cached_for-outcome s t p.client_id p.sequence r (rejected x) answer h same)
    ∙ ap (λ a. (t, a))
        (sym (record_session-cached s p.client_id p.sequence r (rejected x) answer h).1)

put_stored-IsPutSettled :
    (s : KvState) (p : PutCommand) (name : KvName) {old : SessionState}
    → lookup p.client_id s.sessions ≡ some old
    → IsPutSettled p name (put_stored s p name)
unfolding put_stored
put_stored-IsPutSettled s p name h t same =
    let r = put_request name p.body p.if_match p.if_none_match in
    let etag = etag_for s.next_generation in
    let response : PutResponse = record {
      namespace = name.namespace;
      key = name.key;
      etag = etag;
      generation = s.next_generation;
      size = length p.body;
    } in
    let record_of : KvRecord = record {
      body = p.body;
      etag = etag;
      generation = s.next_generation;
    } in
    let s' : KvState = record s {
      next_generation = s.next_generation + 1;
      entries = put_key name record_of s.entries;
    } in
    put_named-recorded t p name response (
      cached_for-outcome s' t p.client_id p.sequence r (put_result response)
        (ok (put_done response)) h same)
    ∙ ap (λ a. (t, a))
        (sym
          (record_session-cached s' p.client_id p.sequence r (put_result response)
            (ok (put_done response)) h).1)

put_new-IsPutSettled :
    (s : KvState) (p : PutCommand) (name : KvName) {old : SessionState}
    → lookup p.client_id s.sessions ≡ some old
    → IsPutSettled p name (put_new s p name)
unfolding put_new
put_new-IsPutSettled s p name h =
    result_rule (IsPutSettled p name)
      (check_put_preconditions (lookup name s.entries) p.if_match p.if_none_match)
      (λ u _.
        if_rule (IsPutSettled p name) (ltb (s.next_generation + 1) u64_mod)
          (λ _. put_stored-IsPutSettled s p name h)
          (λ _. reject-IsPutSettled s p name generation_exhausted h))
      (λ x _. reject-IsPutSettled s p name x h)

-- The answer of the cache is settled: by its three cases.
put_answered-IsPutSettled :
    (s : KvState) (p : PutCommand) (name : KvName) (c : Result (Option PutResponse) ConnectError)
    → and_then
        (cached_for s p.client_id p.sequence (put_request name p.body p.if_match p.if_none_match))
        as_put
      ≡ c
    → IsPutSettled p name (put_answered s p name c)
unfolding put_answered put_named cached_for
put_answered-IsPutSettled s p name (err e) h t same =
    ap
      (λ o. put_answered t p name (
        and_then (cached_in o p.sequence (put_request name p.body p.if_match p.if_none_match))
          as_put))
      same
    ∙ ap (put_answered t p name) h
put_answered-IsPutSettled s p name (ok (some r)) h t same =
    ap
      (λ o. put_answered t p name (
        and_then (cached_in o p.sequence (put_request name p.body p.if_match p.if_none_match))
          as_put))
      same
    ∙ ap (put_answered t p name) h
put_answered-IsPutSettled s p name (ok none) h t same =
    let r = put_request name p.body p.if_match p.if_none_match in
    put_new-IsPutSettled s p name (as_put-session (lookup p.client_id s.sessions) p.sequence r h).1
      t same

pub put_named-IsPutSettled :
    (s : KvState) (p : PutCommand) (name : KvName) → IsPutSettled p name (put_named s p name)
unfolding put_named
put_named-IsPutSettled s p name =
    put_answered-IsPutSettled s p name
      (and_then
        (cached_for s p.client_id p.sequence (put_request name p.body p.if_match p.if_none_match))
        as_put)
      refl

delete_new-IsDeleteSettled :
    (s : KvState) (d : DeleteCommand) (name : KvName) {old : SessionState}
    → lookup d.client_id s.sessions ≡ some old
    → IsDeleteSettled d name (delete_new s d name)
unfolding delete_new delete_removed reject
delete_new-IsDeleteSettled s d name h =
    let r = delete_request name d.if_match in
    let current = lookup name s.entries in
    let response = deleted_response name current in
    let no : Result KvApplyResult ConnectError = err (connect_error etag_mismatch) in
    let yes : Result KvApplyResult ConnectError = ok (delete_done response) in
    let s' : KvState = record s { entries = remove_key name s.entries } in
    if_rule (IsDeleteSettled d name) (not (is_empty d.if_match) && none_or_other current d.if_match)
      (λ _ t same.
        delete_named-rejected t d name etag_mismatch
          (cached_for-outcome s t d.client_id d.sequence r (rejected etag_mismatch) no h same)
        ∙ ap (λ a. (t, a))
            (sym
              (record_session-cached s d.client_id d.sequence r (rejected etag_mismatch) no h).1))
      (λ _ t same.
        delete_named-recorded t d name response
          (cached_for-outcome s' t d.client_id d.sequence r (delete_result response) yes h same)
        ∙ ap (λ a. (t, a))
            (sym
              (record_session-cached s' d.client_id d.sequence r (delete_result response) yes h).1))

delete_answered-IsDeleteSettled :
    (s : KvState) (d : DeleteCommand) (name : KvName)
    (c : Result (Option DeleteResponse) ConnectError)
    → and_then (cached_for s d.client_id d.sequence (delete_request name d.if_match)) as_delete ≡ c
    → IsDeleteSettled d name (delete_answered s d name c)
unfolding delete_answered delete_named cached_for
delete_answered-IsDeleteSettled s d name (err e) h t same =
    ap
      (λ o.
        delete_answered t d name
          (and_then (cached_in o d.sequence (delete_request name d.if_match)) as_delete))
      same
    ∙ ap (delete_answered t d name) h
delete_answered-IsDeleteSettled s d name (ok (some r)) h t same =
    ap
      (λ o.
        delete_answered t d name
          (and_then (cached_in o d.sequence (delete_request name d.if_match)) as_delete))
      same
    ∙ ap (delete_answered t d name) h
delete_answered-IsDeleteSettled s d name (ok none) h t same =
    delete_new-IsDeleteSettled s d name
      (as_delete-session (lookup d.client_id s.sessions) d.sequence (delete_request name d.if_match)
        h).1
      t same

pub delete_named-IsDeleteSettled :
    (s : KvState) (d : DeleteCommand) (name : KvName)
    → IsDeleteSettled d name (delete_named s d name)
unfolding delete_named
delete_named-IsDeleteSettled s d name =
    delete_answered-IsDeleteSettled s d name
      (and_then (cached_for s d.client_id d.sequence (delete_request name d.if_match)) as_delete)
      refl
