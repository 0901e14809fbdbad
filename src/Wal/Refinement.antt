-- ===== src/Wal/Refinement.antt =====
-- wal.rs: the log as a list of records. `Holds` relates a log to the records in it.
use mathlib.Core.List.{append_assoc, append-nil}
use basisdb.Base.{
  ℕ, ◌+◌, ◌≡◌, ◌≤◌, ◌⊎◌, inl, inr, refl, sym, ap, ◌∙◌, Bool, true, false, not, ◌&&◌, List, [], ◌∷◌,
  ◌++◌, map, length, ltb, ◌==◌, Result, ok, err, u64_mod, arith, length-append, All, All-append,
  Bool-cases, if_rule,
}
use basisdb.Wal.Record.{Record, WalError, io}
use basisdb.Wal.Scan.{encode_all}
use basisdb.Wal.Recovery.{IsSegment}
use basisdb.Wal.Log.{
  Wal, Outcomes, Stepped, sync, made, opened_at, opened_next, open_next, rotate, rotate_if_needed,
}

-- The records of the closed segments and of the active one, in order.
unfoldable pub all_records : List (List Record) → List Record → List Record
all_records [] current = current
all_records (rs ∷ older) current = rs ++ all_records older current

all_records-close :
    (older : List (List Record)) (current : List Record)
    → all_records (older ++ current ∷ []) [] ≡ all_records older current
unfolding all_records
all_records-close [] current = append-nil current
all_records-close (rs ∷ older) current = ap (λ l. rs ++ l) (all_records-close older current)

pub all_records-append :
    (older : List (List Record)) (current : List Record) (r : Record)
    → all_records older (current ++ r ∷ []) ≡ all_records older current ++ r ∷ []
unfolding all_records
all_records-append [] current r = refl
all_records-append (rs ∷ older) current r =
    ap (λ l. rs ++ l) (all_records-append older current r)
    ∙ sym (append_assoc rs (all_records older current) (r ∷ []))

map-append : {A B : Type 0} (f : A → B) (xs ys : List A) → map f (xs ++ ys) ≡ map f xs ++ map f ys
map-append f [] ys = refl
map-append f (x ∷ xs) ys = ap (λ l. f x ∷ l) (map-append f xs ys)

-- The files hold the records, each segment within its size. Only a log that is poisoned has more
-- bytes in its active file.
pub record Holds (crc32 : List ℕ → ℕ) (w : Wal) (rs : List Record) : Type 0 where
  pub older : List (List Record)
  pub current : List Record
  pub torn : List ℕ
  pub records : all_records older current ≡ rs
  pub closed_is : w.closed ≡ map (encode_all crc32) older
  pub active_is : w.active ≡ encode_all crc32 current ++ torn
  pub whole : (torn ≡ []) ⊎ (w.poisoned ≡ true)
  pub len_is : w.active_len ≡ length (encode_all crc32 current)
  pub id_is : w.active_id ≡ length older
  pub spare_empty : All (λ file. file ≡ []) w.spare
  pub older_fit : All (IsSegment crc32 w.options.segment_size) older
  pub current_fit : IsSegment crc32 w.options.segment_size current

module _ (crc32 : List ℕ → ℕ) where
  pub sync-Holds :
      (w : Wal) (rs : List Record) (b : Bool) → Holds crc32 w rs → Holds crc32 (sync w b).0 rs
  unfolding sync
  sync-Holds w rs b h =
      if_rule (λ (a : Stepped (Unit {0})). Holds crc32 a.0 rs) w.poisoned (λ _. h)
        (λ _.
          if_rule (λ (a : Stepped (Unit {0})). Holds crc32 a.0 rs) b (λ _. h)
            (λ _. record {
              older = h.older;
              current = h.current;
              torn = h.torn;
              records = h.records;
              closed_is = h.closed_is;
              active_is = h.active_is;
              whole = inr refl;
              len_is = h.len_is;
              id_is = h.id_is;
              spare_empty = h.spare_empty;
              older_fit = h.older_fit;
              current_fit = h.current_fit;
            }))

  -- A log that is not poisoned has whole records only.
  pub not_torn :
      (w : Wal) (rs : List Record) (h : Holds crc32 w rs)
      → w.poisoned ≡ false
      → w.active ≡ encode_all crc32 h.current
  not_torn w rs h healthy = elim h.whole [
    | inl e ↦ h.active_is ∙ ap (λ l. encode_all crc32 h.current ++ l) e ∙ append-nil _
    | inr e ↦ absurd (ground (arith, e, healthy))
  ]

  opened_at-Holds :
      (w : Wal) (rs : List Record) (file : List ℕ) (files : List (List ℕ))
      → file ≡ []
      → All (λ f. f ≡ []) files
      → w.poisoned ≡ false
      → Holds crc32 w rs
      → Holds crc32 (opened_at w file files) rs
  unfolding encode_all
  opened_at-Holds w rs file files none_yet empty healthy h = record {
    older = h.older ++ h.current ∷ [];
    current = [];
    torn = [];
    records = all_records-close h.older h.current ∙ h.records;
    closed_is =
        ap (λ l. l ++ w.active ∷ []) h.closed_is
        ∙ ap (λ f. map (encode_all crc32) h.older ++ f ∷ []) (not_torn w rs h healthy)
        ∙ sym (map-append (encode_all crc32) h.older (h.current ∷ []));
    active_is = none_yet;
    whole = inl refl;
    len_is = refl;
    id_is = omega (arith, h.id_is, length-append h.older (h.current ∷ []));
    spare_empty = empty;
    older_fit =
        All-append (IsSegment crc32 w.options.segment_size) h.older (h.current ∷ []) h.older_fit
          (h.current_fit, tt);
    current_fit = record { fits = tt; sized = omega arith };
  }

  made-empty : (spare : List (List ℕ)) → All (λ f. f ≡ []) spare → All (λ f. f ≡ []) (made spare)
  made-empty [] h = (refl, tt)
  made-empty (file ∷ files) h = h

  made-Holds :
      (w : Wal) (rs : List Record)
      → Holds crc32 w rs
      → Holds crc32 (record w { spare = made w.spare }) rs
  made-Holds w rs h = record {
    older = h.older;
    current = h.current;
    torn = h.torn;
    records = h.records;
    closed_is = h.closed_is;
    active_is = h.active_is;
    whole = h.whole;
    len_is = h.len_is;
    id_is = h.id_is;
    spare_empty = made-empty w.spare h.spare_empty;
    older_fit = h.older_fit;
    current_fit = h.current_fit;
  }

  -- What a rotation promises: the records, and, where it went well, room for `n` bytes.
  abbrev pub Rotated : List Record → ℕ → Wal → Result (Unit {0}) WalError → Type 0
  Rotated rs n w (err e) = Holds crc32 w rs
  Rotated rs n w (ok u) =
      Holds crc32 w rs × (w.poisoned ≡ false) × (w.active_len + n ≤ w.options.segment_size)

  opened_next-Rotated :
      (w : Wal) (rs : List Record) (n : ℕ) (spare : List (List ℕ))
      → All (λ f. f ≡ []) spare
      → w.poisoned ≡ false
      → Holds crc32 w rs
      → n ≤ w.options.segment_size
      → Rotated rs n (opened_next w spare) (ok tt)
  opened_next-Rotated w rs n [] empty healthy h fits =
      (opened_at-Holds w rs [] [] refl tt healthy h, healthy, omega (arith, fits))
  opened_next-Rotated w rs n (file ∷ files) empty healthy h fits =
      (opened_at-Holds w rs file files empty.0 empty.1 healthy h, healthy, omega (arith, fits))

  open_next-Rotated :
      (w : Wal) (out : Outcomes) (rs : List Record) (n : ℕ)
      → Holds crc32 w rs
      → w.poisoned ≡ false
      → n ≤ w.options.segment_size
      → Rotated rs n (open_next w out).0 (open_next w out).1
  unfolding open_next
  open_next-Rotated w out rs n h healthy fits =
      if_rule (λ (a : Stepped (Unit {0})). Rotated rs n a.0 a.1)
        (not (ltb (w.active_id + 1) u64_mod)) (λ _. h)
        (λ _.
          if_rule (λ (a : Stepped (Unit {0})). Rotated rs n a.0 a.1) (not out.opened) (λ _. h)
            (λ _.
              if_rule (λ (a : Stepped (Unit {0})). Rotated rs n a.0 a.1) (not out.dir_synced)
                (λ _. made-Holds w rs h)
                (λ _. opened_next-Rotated w rs n w.spare h.spare_empty healthy h fits)))

  pub sync-synced : (w : Wal) (b : Bool) → w.poisoned ≡ false → b ≡ true → sync w b ≡ (w, ok tt)
  unfolding sync
  sync-synced w b healthy synced = rw (healthy, synced) refl

  pub sync-failed :
      (w : Wal) (b : Bool)
      → w.poisoned ≡ false
      → b ≡ false
      → sync w b ≡ (record w { poisoned = true }, err io)
  unfolding sync
  sync-failed w b healthy failed = rw (healthy, failed) refl

  pub poisoned-Holds :
      (w : Wal) (rs : List Record)
      → Holds crc32 w rs
      → Holds crc32 (record w { poisoned = true }) rs
  poisoned-Holds w rs h = record {
    older = h.older;
    current = h.current;
    torn = h.torn;
    records = h.records;
    closed_is = h.closed_is;
    active_is = h.active_is;
    whole = inr refl;
    len_is = h.len_is;
    id_is = h.id_is;
    spare_empty = h.spare_empty;
    older_fit = h.older_fit;
    current_fit = h.current_fit;
  }

  rotate-sync :
      (w : Wal) (out : Outcomes) (a : Stepped (Unit {0}))
      → sync w out.rotate_synced ≡ a
      → rotate w out ≡ elim a.1 [ err e ↦ (a.0, err e) | ok u ↦ open_next a.0 out ]
  unfolding rotate
  rotate-sync w out a h =
      ap (λ (x : Stepped (Unit {0})). elim x.1 [ err e ↦ (x.0, err e) | ok u ↦ open_next x.0 out ])
        h

  rotate-Rotated :
      (w : Wal) (out : Outcomes) (rs : List Record) (n : ℕ)
      → Holds crc32 w rs
      → w.poisoned ≡ false
      → n ≤ w.options.segment_size
      → Rotated rs n (rotate w out).0 (rotate w out).1
  rotate-Rotated w out rs n h healthy fits = elim (Bool-cases out.rotate_synced) [
    | inl synced ↦
        rw (rotate-sync w out _ (sync-synced w out.rotate_synced healthy synced))
          (open_next-Rotated w out rs n h healthy fits)
    | inr failed ↦
        rw (rotate-sync w out _ (sync-failed w out.rotate_synced healthy failed))
          (poisoned-Holds w rs h)
  ]

  pub rotate_if_needed-Rotated :
      (w : Wal) (out : Outcomes) (rs : List Record) (n : ℕ)
      → Holds crc32 w rs
      → w.poisoned ≡ false
      → Rotated rs n (rotate_if_needed w out n).0 (rotate_if_needed w out n).1
  unfolding rotate_if_needed
  rotate_if_needed-Rotated w out rs n h healthy =
      let P : Stepped (Unit {0}) → Type 0 = λ a. Rotated rs n a.0 a.1 in
      if_rule P (ltb w.options.segment_size n) (λ _. h)
        (λ small.
          if_rule P (not (ltb (w.active_len + n) u64_mod)) (λ _. h)
            (λ _.
              if_rule P (not (w.active_len == 0) && ltb w.options.segment_size (w.active_len + n))
                (λ _. rotate-Rotated w out rs n h healthy (ground (arith, small)))
                (λ room. (h, healthy, ground (arith, small, room)))))
