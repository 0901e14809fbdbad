-- ===== src/Kv/Condition.antt =====
-- command.rs: the preconditions of a put, and what a command does to the entries.
use mathlib.Core.Path.{subst}
use basisdb.Base.{
  ℕ, ◌+◌, ◌≡◌, ◌⊎◌, inl, inr, refl, sym, ap, ◌∙◌, Bool, true, false, ◌&&◌, Option, none, some,
  is_empty, ltb, if◌then◌else◌, Result, ok, err, Bool-cases, Text, lookup, put_key, lookup-put_key,
  same_key, same_text, eq-same_text, number_keyed, if_rule, arith, u64_mod, length,
}
use basisdb.Kv.Names.{
  ConnectError, KvName, name_keyed, and_then, new_name, Checked, validate_mutation_request,
  validate_put_preconditions, validate_value,
}
use basisdb.Kv.Rule.{apply_rule}
use basisdb.Kv.Valid.{record_session-state}
use basisdb.Kv.Command.{
  KvState, KvCommand, KvRecord, PutCommand, PutResponse, Applied, SessionState, MutationRequest,
  MutationRejection, reject, put_stored, delete_removed, register, apply, check_put, put, put_done,
  etag_for, put_request, put_result, rejected, connect_error, check_put_preconditions, is_there,
}

-- The preconditions of a put hold of the record under its name.
unfoldable pub HasCondition : Option KvRecord → Text → Bool → Type 0
HasCondition current if_match if_none_match =
    ((if_none_match && is_there current) ≡ false)
    × ((is_empty if_match ≡ true) ⊎ ((r : KvRecord) × (current ≡ some r) × (r.etag ≡ if_match)))

check_put_preconditions-HasCondition :
    (current : Option KvRecord) (if_match : Text) (if_none_match : Bool)
    → check_put_preconditions current if_match if_none_match ≡ ok tt
    → HasCondition current if_match if_none_match
unfolding check_put_preconditions HasCondition
check_put_preconditions-HasCondition none if_match if_none_match h = (
  ground arith,
  elim (Bool-cases (is_empty if_match)) [
    | inl unset ↦ inl unset
    | inr set ↦ absurd (ground (arith, h, set))
  ],
)
check_put_preconditions-HasCondition (some r) if_match if_none_match h = (
  elim (Bool-cases if_none_match) [
    | inl e ↦ absurd (ground (arith, h, e))
    | inr e ↦ ground (arith, e)
  ],
  elim (Bool-cases (is_empty if_match)) [
    | inl unset ↦ inl unset
    | inr set ↦ elim (Bool-cases (same_text r.etag if_match)) [
      | inl e ↦ inr (r, refl, eq-same_text r.etag if_match e)
      | inr e ↦ absurd (ground (arith, h, set, e))
    ]
  ],
)

abbrev name_of_put : PutCommand → KvName
name_of_put p = record { namespace = p.namespace; key = p.key }

-- A chain of checks that ends well gives its rest.
and_then-ok :
    (r : Checked) (rest : Result KvName ConnectError) (name : KvName)
    → and_then r (λ _. rest) ≡ ok name
    → rest ≡ ok name
and_then-ok (ok u) rest name h = h
and_then-ok (err e) rest name h = absurd (ground (arith, h))

new_name-ok :
    (namespace key : Text) (name : KvName)
    → new_name namespace key ≡ ok name
    → record { namespace = namespace; key = key } ≡ name
unfolding new_name
new_name-ok namespace key name h = ground (arith, h)

-- The checks let a put pass under its own name.
check_put-name : (p : PutCommand) (name : KvName) → check_put p ≡ ok name → name_of_put p ≡ name
unfolding check_put
check_put-name p name h =
    let last = new_name p.namespace p.key in
    let third = and_then (validate_value p.body) (λ _. last) in
    let second = and_then (validate_put_preconditions p.if_match p.if_none_match) (λ _. third) in
    new_name-ok p.namespace p.key name (
      and_then-ok (validate_value p.body) last name (
        and_then-ok (validate_put_preconditions p.if_match p.if_none_match) third name
          (and_then-ok (validate_mutation_request p.client_id p.sequence) second name h)))

-- The answer to a put that is carried out.
abbrev response_to : PutCommand → ℕ → PutResponse
response_to p generation = record {
  namespace = p.namespace;
  key = p.key;
  etag = etag_for generation;
  generation = generation;
  size = length p.body;
}

-- The put was carried out: the conditions of the request held, and its record is there.
pub record IsStored (s : KvState) (p : PutCommand) (t : KvState) (r : PutResponse) : Type 0 where
  pub condition : HasCondition (lookup (name_of_put p) s.entries) p.if_match p.if_none_match
  pub answer : r ≡ response_to p s.next_generation
  pub next : t.next_generation ≡ s.next_generation + 1
  pub found :
      (name : KvName)
      → lookup name t.entries ≡ (
          if same_key (name_of_put p) name
          then some (record { body = p.body; etag = r.etag; generation = r.generation })
          else lookup name s.entries)

Answered : KvState → PutCommand → Applied → Type 0
Answered s p a = (r : PutResponse) → a.1 ≡ ok (put_done r) → (a.0 ≡ s) ⊎ IsStored s p a.0 r

reject-err :
    (s : KvState) (c q : ℕ) (r : MutationRequest) (x : MutationRejection) {old : SessionState}
    → lookup c s.sessions ≡ some old
    → (reject s c q r x).1 ≡ err (connect_error x)
unfolding reject
reject-err s c q r x h =
    ap (λ a. a.1) (record_session-state s c q r (rejected x) (err (connect_error x)) h)

reject-Answered :
    (s : KvState) (p : PutCommand) (c q : ℕ) (r : MutationRequest) (x : MutationRejection)
    {old : SessionState}
    → lookup c s.sessions ≡ some old
    → Answered s p (reject s c q r x)
unfolding Answered
reject-Answered s p c q r x h answer e = absurd (ground (arith, e, reject-err s c q r x h))

put_stored-IsStored :
    (s : KvState) (p : PutCommand) (r : PutResponse) {old : SessionState}
    → lookup p.client_id s.sessions ≡ some old
    → HasCondition (lookup (name_of_put p) s.entries) p.if_match p.if_none_match
    → (put_stored s p (name_of_put p)).1 ≡ ok (put_done r)
    → IsStored s p (put_stored s p (name_of_put p)).0 r
unfolding put_stored
put_stored-IsStored s p r h condition e =
    let t : KvState = record s {
      next_generation = s.next_generation + 1;
      entries =
          put_key (name_of_put p)
            (record {
              body = p.body;
              etag = etag_for s.next_generation;
              generation = s.next_generation;
            })
            s.entries;
    } in
    let response = response_to p s.next_generation in
    let whole =
      record_session-state t p.client_id p.sequence
        (put_request (name_of_put p) p.body p.if_match p.if_none_match) (put_result response)
        (ok (put_done response)) h in
    let is : r ≡ response = ground (arith, sym (ap (λ a. a.1) whole) ∙ e) in
    record {
      condition = condition;
      answer = is;
      next = ap (λ a. a.0.next_generation) whole;
      found = λ name.
          ap (λ a. lookup name a.0.entries) whole
          ∙ lookup-put_key (name_of_put p) name _ s.entries
          ∙ ap
              (λ (x : PutResponse).
                if same_key (name_of_put p) name
                then some (record { body = p.body; etag = x.etag; generation = x.generation })
                else lookup name s.entries)
              (sym is);
    }

put_stored-Answered :
    (s : KvState) (p : PutCommand) (name : KvName) {old : SessionState}
    → name_of_put p ≡ name
    → lookup p.client_id s.sessions ≡ some old
    → HasCondition (lookup name s.entries) p.if_match p.if_none_match
    → Answered s p (put_stored s p name)
unfolding Answered
put_stored-Answered s p name same h condition =
    let own : HasCondition (lookup (name_of_put p) s.entries) p.if_match p.if_none_match =
      subst (λ n. HasCondition (lookup n s.entries) p.if_match p.if_none_match) (sym same)
        condition in
    subst (λ n. Answered s p (put_stored s p n)) same
      (λ r e. inr (put_stored-IsStored s p r h own e))

-- A put that is answered with a response leaves the state as it was, or its preconditions held of
-- the record under its name, the response has the next generation and its ETag, the generation
-- counter is one higher, and each name is found as before but the put's own, which has the new
-- record.
pub apply-put-IsStored :
    (s : KvState) (p : PutCommand) (r : PutResponse)
    → (apply s (put p)).1 ≡ ok (put_done r)
    → ((apply s (put p)).0 ≡ s) ⊎ IsStored s p (apply s (put p)).0 r
unfolding Answered register
apply-put-IsStored s p =
    apply_rule (Answered s p) s (put p) (λ answer r h. inl refl)
      (λ c q r x old _ h. reject-Answered s p c q r x h)
      (λ p' name old mine checked h accepted _.
        subst (λ x. Answered s x (put_stored s p' name)) (ground (arith, mine))
          (put_stored-Answered s p' name (check_put-name p' name checked) h (
            check_put_preconditions-HasCondition (lookup name s.entries) p'.if_match
              p'.if_none_match accepted)))
      (λ d name old mine _ h r e. absurd (ground (arith, mine)))
      (if_rule (Answered s p) (ltb (s.next_client_id + 1) u64_mod)
        (λ _ r e. absurd (ground (arith, e))) (λ _ r e. absurd (ground (arith, e))))

IsHarmless : KvState → Applied → Type 0
IsHarmless s a =
    (e : ConnectError)
    → a.1 ≡ err e
    → (a.0.entries ≡ s.entries)
      × (a.0.next_generation ≡ s.next_generation)
      × (a.0.next_client_id ≡ s.next_client_id)

-- A command that is answered with an error leaves the entries and both counters as they were.
pub apply-err :
    (s : KvState) (cmd : KvCommand) (e : ConnectError)
    → (apply s cmd).1 ≡ err e
    → ((apply s cmd).0.entries ≡ s.entries)
      × ((apply s cmd).0.next_generation ≡ s.next_generation)
      × ((apply s cmd).0.next_client_id ≡ s.next_client_id)
unfolding IsHarmless reject put_stored delete_removed register
apply-err s cmd =
    apply_rule (IsHarmless s) s cmd (λ answer e h. (refl, refl, refl))
      (λ c q r x old _ h e _.
        let whole = record_session-state s c q r (rejected x) (err (connect_error x)) h in
        (
          ap (λ a. a.0.entries) whole,
          ap (λ a. a.0.next_generation) whole,
          ap (λ a. a.0.next_client_id) whole,
        ))
      (λ p name old _ _ h _ _ e no.
        absurd (
          ground
            (arith, no, ap (λ a. a.1) (record_session-state _ p.client_id p.sequence _ _ _ h))))
      (λ d name old _ _ h e no.
        absurd (
          ground
            (arith, no, ap (λ a. a.1) (record_session-state _ d.client_id d.sequence _ _ _ h))))
      (if_rule (IsHarmless s) (ltb (s.next_client_id + 1) u64_mod)
        (λ _ e no. absurd (ground (arith, no))) (λ _ e no. (refl, refl, refl)))
