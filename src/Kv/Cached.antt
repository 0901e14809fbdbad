-- ===== src/Kv/Cached.antt =====
-- command.rs: the cache of a session.
use basisdb.Base.{
  ℕ, ◌≡◌, refl, ap, ◌∙◌, Bool, true, false, some, if◌then◌else◌, Result, ok, err, lookup, put_key,
  number_keyed, same_text_self, lookup-put_key, same_key_self, arith,
}
use basisdb.Kv.Names.{ConnectError, error, aborted, KvName, and_then, name_keyed}
use basisdb.Kv.Command.{
  KvState, PutCommand, DeleteCommand, KvApplyResult, SessionState, MutationRequest, MutationResult,
  put_request, delete_request, put_result, delete_result, rejected, MutationRejection, put_done,
  delete_done, PutResponse, DeleteResponse, connect_error, same_request, same_flag, record_session,
  recorded_in, cached_in, cached_at, cached_for, cached_mutation, as_put, as_delete, put_answered,
  put_named, delete_answered, delete_named,
}

same_flag_self : (b : Bool) → same_flag b b ≡ true
same_flag_self true = refl
same_flag_self false = refl

same_request_self : (r : MutationRequest) → same_request r r ≡ true
same_request_self (put_request n b m f) = ground (
  arith,
  same_text_self n.namespace,
  same_text_self n.key,
  same_text_self b,
  same_text_self m,
  same_flag_self f,
)
same_request_self (delete_request n m) =
    ground (arith, same_text_self n.namespace, same_text_self n.key, same_text_self m)

-- The cache is read from the client's session alone.
pub cached_for-session :
    (s t : KvState) (c q : ℕ) (r : MutationRequest)
    → lookup c t.sessions ≡ lookup c s.sessions
    → cached_for t c q r ≡ cached_for s c q r
unfolding cached_for
cached_for-session s t c q r h = ap (λ o. cached_in o q r) h

-- A session that holds a request and its result answers the request by the result.
cached_in-recorded :
    (q : ℕ) (r : MutationRequest) (x : MutationResult)
    → cached_in (some (record { sequence = q; request = some r; result = some x })) q r
      ≡ ok (some x)
unfolding cached_mutation number_keyed
cached_in-recorded q r x =
    let session : SessionState = record { sequence = q; request = some r; result = some x } in
    ap (λ o. cached_at o session r) (number_keyed.cmp_self q)
    ∙ ap (λ (b : Bool). if b then ok (some x) else err reused) (same_request_self r)
  where
    reused : ConnectError
    reused = error aborted "sequence reused for different request"

-- What is recorded in a session is found there, and the answer is the one that was given.
pub record_session-cached :
    (s : KvState) (c q : ℕ) (r : MutationRequest) (x : MutationResult)
    (answer : Result KvApplyResult ConnectError) {old : SessionState}
    → lookup c s.sessions ≡ some old
    → (cached_for (record_session s c q r x answer).0 c q r ≡ ok (some x))
      × ((record_session s c q r x answer).1 ≡ answer)
unfolding record_session cached_for
record_session-cached s c q r x answer h =
    let session : SessionState = record { sequence = q; request = some r; result = some x } in
    let found : lookup c (put_key c session s.sessions) ≡ some session =
      lookup-put_key c c session s.sessions
      ∙ ap (λ (b : Bool). if b then some session else lookup c s.sessions) (same_key_self c) in
    (
      ap (λ o. cached_in (lookup c (recorded_in o s c session answer).0.sessions) q r) h
          ∙ ap (λ o. cached_in o q r) found
          ∙ cached_in-recorded q r x,
      ap (λ o. (recorded_in o s c session answer).1) h,
    )

-- A put whose answer is recorded gives it again, whatever the rest of the state.
pub put_named-recorded :
    (t : KvState) (p : PutCommand) (name : KvName) (r : PutResponse)
    → cached_for t p.client_id p.sequence (put_request name p.body p.if_match p.if_none_match)
      ≡ ok (some (put_result r))
    → put_named t p name ≡ (t, ok (put_done r))
unfolding put_named put_answered
put_named-recorded t p name r h = ap (λ c. put_answered t p name (and_then c as_put)) h

pub put_named-rejected :
    (t : KvState) (p : PutCommand) (name : KvName) (x : MutationRejection)
    → cached_for t p.client_id p.sequence (put_request name p.body p.if_match p.if_none_match)
      ≡ ok (some (rejected x))
    → put_named t p name ≡ (t, err (connect_error x))
unfolding put_named put_answered
put_named-rejected t p name x h = ap (λ c. put_answered t p name (and_then c as_put)) h

pub delete_named-recorded :
    (t : KvState) (d : DeleteCommand) (name : KvName) (r : DeleteResponse)
    → cached_for t d.client_id d.sequence (delete_request name d.if_match)
      ≡ ok (some (delete_result r))
    → delete_named t d name ≡ (t, ok (delete_done r))
unfolding delete_named delete_answered
delete_named-recorded t d name r h = ap (λ c. delete_answered t d name (and_then c as_delete)) h

pub delete_named-rejected :
    (t : KvState) (d : DeleteCommand) (name : KvName) (x : MutationRejection)
    → cached_for t d.client_id d.sequence (delete_request name d.if_match) ≡ ok (some (rejected x))
    → delete_named t d name ≡ (t, err (connect_error x))
unfolding delete_named delete_answered
delete_named-rejected t d name x h = ap (λ c. delete_answered t d name (and_then c as_delete)) h
