-- ===== src/Kv/Examples.antt =====
-- Concrete states of the key-value machine on which its theorems apply.
use basisdb.Base.{
  ℕ, ◌≡◌, ◌⊎◌, refl, true, some, List, [], ◌∷◌, ok, err, arith, put_key, number_keyed, decimal,
  cmp_text, text_keyed, lookup,
}
use basisdb.Kv.Names.{
  name_keyed, cmp_name, new_name, validate_mutation_request, validate_put_preconditions,
  validate_etag, validate_value, KvName,
}
use basisdb.Kv.Command.{
  KvState, KvRecord, PutCommand, new_state, empty_session, register_session, read_barrier, put,
  apply, register, apply_put, put_done, PutResponse, etag_for, put_named, put_answered, put_new,
  put_stored, record_session, cached_for, cached_mutation, check_put, check_put_preconditions,
  reject, unknown_session,
}
use basisdb.Kv.Valid.{new_state-IsValid, apply-IsValid, IsValid}
use basisdb.Kv.Retry.{apply_retry}
use basisdb.Kv.Once.{run, run-retry}
use basisdb.Kv.Condition.{apply-put-IsStored, apply-err, IsStored}
use basisdb.Kv.Browse.{entries}
use basisdb.Kv.Pages.{IsReturned, HasPage, entries-IsPage}
use basisdb.Kv.Etag.{same_etag}

-- Runs are computed.
abbrev a_put : PutCommand
a_put = record {
  client_id = 1;
  sequence = 1;
  namespace = 110 ∷ [];
  key = 107 ∷ [];
  body = 5 ∷ [];
  if_match = [];
  if_none_match = true;
}

abbrev with_session : KvState
with_session = (apply new_state register_session).0

abbrev stored : KvState
stored = (apply with_session (put a_put)).0

abbrev first_etag : List ℕ
first_etag = 34 ∷ 99 ∷ 57 ∷ 45 ∷ 49 ∷ 34 ∷ []

abbrev first_answer : PutResponse
first_answer = record {
  namespace = 110 ∷ [];
  key = 107 ∷ [];
  etag = first_etag;
  generation = 1;
  size = 1;
}

abbrev first_name : KvName
first_name = record { namespace = 110 ∷ []; key = 107 ∷ [] }

abbrev first_record : KvRecord
first_record = record { body = 5 ∷ []; etag = first_etag; generation = 1 }

with_session-IsValid : IsValid with_session
with_session-IsValid = apply-IsValid new_state register_session new_state-IsValid

apply-IsValid_example : IsValid stored
apply-IsValid_example = apply-IsValid with_session (put a_put) with_session-IsValid

session_there : lookup 1 with_session.sessions ≡ some empty_session
unfolding apply register put_key lookup number_keyed
session_there = refl

put_first : (apply with_session (put a_put)).1 ≡ ok (put_done first_answer)
unfolding apply register apply_put put_named put_answered put_new put_stored record_session
    cached_for cached_mutation check_put check_put_preconditions reject etag_for decimal put_key
    lookup number_keyed cmp_text text_keyed cmp_name name_keyed new_name validate_mutation_request
    validate_put_preconditions validate_etag validate_value
put_first = refl

entry_there : lookup first_name stored.entries ≡ some first_record
unfolding apply register apply_put put_named put_answered put_new put_stored record_session
    cached_for cached_mutation check_put check_put_preconditions reject etag_for decimal put_key
    lookup number_keyed cmp_text text_keyed cmp_name name_keyed new_name validate_mutation_request
    validate_put_preconditions validate_etag validate_value
entry_there = refl

without_session : (apply new_state (put a_put)).1 ≡ err unknown_session
unfolding apply register apply_put put_named put_answered put_new put_stored record_session
    cached_for cached_mutation check_put check_put_preconditions reject etag_for decimal put_key
    lookup number_keyed cmp_text text_keyed cmp_name name_keyed new_name validate_mutation_request
    validate_put_preconditions validate_etag validate_value
without_session = refl

apply_retry_example : apply stored (put a_put) ≡ (stored, (apply with_session (put a_put)).1)
apply_retry_example = apply_retry with_session stored (put a_put) 1 refl refl

run-retry_example :
    apply (run stored (register_session ∷ read_barrier ∷ [])) (put a_put)
    ≡ (run stored (register_session ∷ read_barrier ∷ []), (apply with_session (put a_put)).1)
run-retry_example =
    run-retry with_session (put a_put) (register_session ∷ read_barrier ∷ []) 1 empty_session
      with_session-IsValid refl session_there
      ((λ e. ground (arith, e)), ((λ e. ground (arith, e)), tt))

apply-put-IsStored_example :
    (stored ≡ with_session) ⊎ IsStored with_session a_put stored first_answer
apply-put-IsStored_example = apply-put-IsStored with_session a_put first_answer put_first

apply-err_example :
    ((apply new_state (put a_put)).0.entries ≡ new_state.entries)
    × ((apply new_state (put a_put)).0.next_generation ≡ new_state.next_generation)
    × ((apply new_state (put a_put)).0.next_client_id ≡ new_state.next_client_id)
apply-err_example = apply-err new_state (put a_put) unknown_session without_session

same_etag_example : first_record.generation ≡ first_record.generation
same_etag_example =
    same_etag stored first_name first_name first_record first_record apply-IsValid_example
      entry_there entry_there refl

entries-IsPage_example :
    IsReturned (HasPage (110 ∷ []) [] [] 1) 1 (entries stored (110 ∷ []) [] [] 1)
entries-IsPage_example = entries-IsPage stored (110 ∷ []) [] [] 1
