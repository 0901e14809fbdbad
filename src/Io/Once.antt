-- ===== src/Io/Once.antt =====
-- session.rs: what a tracker answers after a completion.
use mathlib.Core.Path.{subst}
use basisdb.Base.{
  ℕ, ◌≡◌, ◌<◌, ◌⊎◌, refl, ap, ◌∙◌, inl, inr, Bool, true, false, Option, none, some, List, [], ◌∷◌,
  ltb, if◌then◌else◌, lookup, put_key, remove_key, number_keyed, add64, lookup-put_key,
  lookup-remove_key, same_key, Bool-cases, ◌==◌, arith, if_rule,
}
use basisdb.Io.Session.{
  ClientSession, is_new, stale, duplicate, SessionTracker, default_session, register_client,
  check_session, check_duplicate, or_default, completed_session, record_completion, expire_session,
}

-- The calls that change a tracker.
pub data Call (R : Type 0) : Type 0 where
  register : Call R
  complete : ℕ → ℕ → R → Call R
  expire : ℕ → Call R

module _ {R : Type 0} where
  -- Only a session that has completed nothing has no response.
  abbrev pub IsAnswered : ClientSession R → Type 0
  IsAnswered session = (session.last_sequence ≡ 0) ⊎ ((r : R) × (session.last_response ≡ some r))

  pub record IsTracked (t : SessionTracker R) : Type 0 where
    pub answered :
        (c : ℕ) (session : ClientSession R)
        → lookup c t.sessions ≡ some session
        → IsAnswered session

  -- A sequence that counts as new is above the last one.
  is_new-above :
      (o : Option (ClientSession R)) (q : ℕ)
      → ((session : ClientSession R) → o ≡ some session → IsAnswered session)
      → 0 < q
      → check_session o q ≡ is_new
      → (or_default o).last_sequence < q
  is_new-above none q tracked positive h = positive
  is_new-above (some session) q tracked positive h = elim (tracked session refl) [
    | inl zero ↦ ground (arith, positive, h, zero)
    | inr (r, e) ↦ ground (arith, h, e)
  ]

  completed_session-above :
      (session : ClientSession R) (q : ℕ) (r : R)
      → session.last_sequence < q
      → completed_session session q r ≡ record { last_sequence = q; last_response = some r }
  unfolding completed_session
  completed_session-above session q r h = ground (arith, h)

  unfoldable pub run_calls : SessionTracker R → List (Call R) → SessionTracker R
  unfolding register_client record_completion expire_session
  run_calls t [] = t
  run_calls t (register ∷ calls) = run_calls (register_client t).0 calls
  run_calls t (complete c q r ∷ calls) = run_calls (record_completion t c q r) calls
  run_calls t (expire c ∷ calls) = run_calls (expire_session t c).0 calls

  put_session-IsTracked :
      (t : SessionTracker R) (c next : ℕ) (session : ClientSession R)
      → IsAnswered session
      → IsTracked t
      → IsTracked (record { sessions = put_key c session t.sessions; next_client_id = next })
  put_session-IsTracked t c next session good v = record {
    answered = λ j s h. elim (Bool-cases (same_key c j)) [
      | inl e ↦
          let is : session ≡ s = ground (arith, h, lookup-put_key c j session t.sessions, e) in
          subst IsAnswered is good
      | inr e ↦ v.answered j s (ground (arith, h, lookup-put_key c j session t.sessions, e))
    ];
  }

  completed_session-IsAnswered :
      (session : ClientSession R) (q : ℕ) (r : R)
      → IsAnswered session
      → IsAnswered (completed_session session q r)
  unfolding completed_session
  completed_session-IsAnswered session q r good =
      if_rule IsAnswered (ltb session.last_sequence q) (λ _. inr (r, refl)) (λ _. good)

  or_default-IsAnswered :
      (t : SessionTracker R) (c : ℕ) (o : Option (ClientSession R))
      → lookup c t.sessions ≡ o
      → IsTracked t
      → IsAnswered (or_default o)
  or_default-IsAnswered t c none h v = inl refl
  or_default-IsAnswered t c (some session) h v = v.answered c session h

  remove_session-IsTracked :
      (t : SessionTracker R) (c : ℕ)
      → IsTracked t
      → IsTracked (record t { sessions = remove_key c t.sessions })
  remove_session-IsTracked t c v = record {
    answered = λ j s h. elim (Bool-cases (same_key c j)) [
      | inl e ↦ absurd (ground (arith, h, lookup-remove_key c j t.sessions, e))
      | inr e ↦ v.answered j s (ground (arith, h, lookup-remove_key c j t.sessions, e))
    ];
  }

  -- Registrations, completions and expirations, in any order, keep a tracker such that only
  -- sessions whose last sequence is 0 lack a response.
  pub run_calls-IsTracked :
      (t : SessionTracker R) (calls : List (Call R)) → IsTracked t → IsTracked (run_calls t calls)
  unfolding run_calls register_client record_completion expire_session
  run_calls-IsTracked t [] v = v
  run_calls-IsTracked t (register ∷ calls) v = run_calls-IsTracked (register_client t).0 calls (
      put_session-IsTracked t t.next_client_id (add64 t.next_client_id 1) default_session (inl refl)
        v)
  run_calls-IsTracked t (complete c q r ∷ calls) v =
      let before = or_default-IsAnswered t c (lookup c t.sessions) refl v in
      run_calls-IsTracked (record_completion t c q r) calls
        (put_session-IsTracked t c t.next_client_id _ (completed_session-IsAnswered _ q r before) v)
  run_calls-IsTracked t (expire c ∷ calls) v =
      run_calls-IsTracked (expire_session t c).0 calls (remove_session-IsTracked t c v)

  -- In a tracker where only sessions without completions lack a response, after the completion of
  -- a positive sequence that counted as new, the client's higher sequences are new, that one is a
  -- duplicate with its response and lower ones are stale, and every other client is answered as
  -- before.
  pub check_duplicate-record_completion :
      (t : SessionTracker R) (c c' q q' : ℕ) (r : R)
      → IsTracked t
      → 0 < q
      → check_duplicate t c q ≡ is_new
      → check_duplicate (record_completion t c q r) c' q' ≡ (
          if same_key c c'
          then if ltb q q' then is_new else if q' == q then duplicate r else stale
          else check_duplicate t c' q')
  unfolding check_duplicate record_completion
  check_duplicate-record_completion t c c' q q' r v positive new =
      let session = or_default (lookup c t.sessions) in
      let above = is_new-above (lookup c t.sessions) q (v.answered c) positive new in
      ap (λ s. check_session (lookup c' (put_key c s t.sessions)) q')
        (completed_session-above session q r above)
      ∙ ap (λ o. check_session o q') (lookup-put_key c c' _ t.sessions)
      ∙ by_key (same_key c c')
    where
      by_key :
          (b : Bool)
          → check_session
              (if b
                then some (record { last_sequence = q; last_response = some r })
                else lookup c' t.sessions)
              q'
            ≡ (if b
                then if ltb q q' then is_new else if q' == q then duplicate r else stale
                else check_session (lookup c' t.sessions) q')
      by_key true = ground arith
      by_key false = refl
