-- ===== src/Wal/Append.antt =====
-- wal.rs: `append` on the records of a log.
use mathlib.Core.List.{append_assoc, append-nil}
use mathlib.Core.Path.{subst}
use basisdb.Base.{
  ℕ, ◌+◌, ◌≡◌, ◌<◌, ◌≤◌, ◌⊎◌, inl, inr, refl, sym, ap, ◌∙◌, true, false, List, [], ◌∷◌, ◌++◌,
  length, take, ltb, if◌then◌else◌, Result, ok, err, u64_mod, arith, length-append, All-append,
  Bool-cases, if_rule, option_rule,
}
use basisdb.Wal.Record.{Lsn, Record, WalError, wal_full}
use basisdb.Wal.Format.{header_len, u32_mod, encoded_len, encode_header, encode_record}
use basisdb.Wal.RoundTrip.{length-encode_header}
use basisdb.Wal.Scan.{Fits, encode_all}
use basisdb.Wal.Recovery.{encoding}
use basisdb.Wal.Segment.{lsn_at}
use basisdb.Wal.Refinement.{
  Holds, all_records-append, not_torn, sync-synced, sync-failed, poisoned-Holds, Rotated,
  rotate_if_needed-Rotated,
}
use basisdb.Wal.Log.{
  Wal, Outcomes, Stepped, rotate_if_needed, checked_add_len, synced_append, write_encoded,
  append_rotated, append_sized, append,
}

encode_all-snoc :
    (crc32 : List ℕ → ℕ) (rs : List Record) (r : Record)
    → encode_all crc32 (rs ++ r ∷ []) ≡ encode_all crc32 rs ++ encoding crc32 r
unfolding encode_all encoding
encode_all-snoc crc32 [] r =
    ap (λ l. encode_header crc32 r.kind r.payload ++ l) (append-nil r.payload)
encode_all-snoc crc32 (q ∷ rs) r =
    let header = encode_header crc32 q.kind q.payload in
    let more = encoding crc32 r in
    ap (λ l. header ++ (q.payload ++ l)) (encode_all-snoc crc32 rs r)
    ∙ ap (λ l. header ++ l) (sym (append_assoc q.payload (encode_all crc32 rs) more))
    ∙ sym (append_assoc header (q.payload ++ encode_all crc32 rs) more)

-- What an append promises: with a position, the record is the last of the log. With an error the
-- log holds what it held, or the record was written and only its sync failed.
abbrev pub Promise : (List ℕ → ℕ) → List Record → Record → Wal → Result Lsn WalError → Type 0
Promise crc32 rs r w (ok lsn) = Holds crc32 w (rs ++ r ∷ [])
Promise crc32 rs r w (err e) =
    Holds crc32 w rs ⊎ (Holds crc32 w (rs ++ r ∷ []) × (w.poisoned ≡ true))

module _ (crc32 : List ℕ → ℕ) (crc_fits : (bytes : List ℕ) → crc32 bytes < u32_mod) where
  length-encoding : (r : Record) → length (encoding crc32 r) ≡ header_len + length r.payload
  unfolding encoding
  length-encoding r =
      length-append (encode_header crc32 r.kind r.payload) r.payload
      ∙ ap (λ n. n + length r.payload) (length-encode_header crc32 crc_fits r.kind r.payload)

  written-Holds :
      (w : Wal) (rs : List Record) (r : Record) (total : ℕ)
      → Fits r
      → Holds crc32 w rs
      → w.poisoned ≡ false
      → w.active_len + (header_len + length r.payload) ≤ w.options.segment_size
      → Holds crc32
          (record w {
            active = w.active ++ encoding crc32 r;
            active_len = w.active_len + length (encoding crc32 r);
            total_len = total;
          })
          (rs ++ r ∷ [])
  written-Holds w rs r total fits h healthy room =
      let snoc = encode_all-snoc crc32 h.current r in
      let size : length (encode_all crc32 (h.current ++ r ∷ []))
          ≡ w.active_len + length (encoding crc32 r) =
        ap length snoc
        ∙ length-append (encode_all crc32 h.current) (encoding crc32 r)
        ∙ ap (λ n. n + length (encoding crc32 r)) (sym h.len_is) in
      record {
        older = h.older;
        current = h.current ++ r ∷ [];
        torn = [];
        records = all_records-append h.older h.current r ∙ ap (λ l. l ++ r ∷ []) h.records;
        closed_is = h.closed_is;
        active_is =
            ap (λ l. l ++ encoding crc32 r) (not_torn crc32 w rs h healthy)
            ∙ sym snoc
            ∙ sym (append-nil (encode_all crc32 (h.current ++ r ∷ [])));
        whole = inl refl;
        len_is = sym size;
        id_is = h.id_is;
        spare_empty = h.spare_empty;
        older_fit = h.older_fit;
        current_fit = record {
          fits = All-append Fits h.current (r ∷ []) h.current_fit.fits (fits, tt);
          sized = omega (arith, size, length-encoding r, room);
        };
      }

  failed-Holds :
      (w : Wal) (rs : List Record) (bytes : List ℕ)
      → Holds crc32 w rs
      → Holds crc32 (record w { poisoned = true; active = w.active ++ bytes }) rs
  failed-Holds w rs bytes h = record {
    older = h.older;
    current = h.current;
    torn = h.torn ++ bytes;
    records = h.records;
    closed_is = h.closed_is;
    active_is =
        ap (λ l. l ++ bytes) h.active_is ∙ append_assoc (encode_all crc32 h.current) h.torn bytes;
    whole = inr refl;
    len_is = h.len_is;
    id_is = h.id_is;
    spare_empty = h.spare_empty;
    older_fit = h.older_fit;
    current_fit = h.current_fit;
  }

  synced_append-Promise :
      (w : Wal) (out : Outcomes) (lsn : Lsn) (rs : List Record) (r : Record)
      → Holds crc32 w (rs ++ r ∷ [])
      → w.poisoned ≡ false
      → Promise crc32 rs r (synced_append w out lsn).0 (synced_append w out lsn).1
  unfolding synced_append
  synced_append-Promise w out lsn rs r h healthy =
      if_rule (λ (a : Stepped Lsn). Promise crc32 rs r a.0 a.1) w.options.sync_on_append
        (λ _. elim (Bool-cases out.synced) [
          | inl synced ↦
              subst (λ (x : Stepped (Unit {0})). Finished x)
                (sym (sync-synced crc32 w out.synced healthy synced)) h
          | inr failed ↦
              subst (λ (x : Stepped (Unit {0})). Finished x)
                (sym (sync-failed crc32 w out.synced healthy failed))
                (inr (poisoned-Holds crc32 w (rs ++ r ∷ []) h, refl))
        ])
        (λ _. h)
    where
      Finished : Stepped (Unit {0}) → Type 0
      Finished x =
          let a : Stepped Lsn = elim x.1 [ err e ↦ (x.0, err e) | ok u ↦ (x.0, ok lsn) ] in
          Promise crc32 rs r a.0 a.1

  write_encoded-Promise :
      (w : Wal) (out : Outcomes) (rs : List Record) (r : Record) (total : ℕ)
      → Fits r
      → Holds crc32 w rs
      → w.poisoned ≡ false
      → w.active_len + (header_len + length r.payload) ≤ w.options.segment_size
      → let a =
          write_encoded w out (encoding crc32 r) (w.active_len + length (encoding crc32 r)) total in
        Promise crc32 rs r a.0 a.1
  unfolding write_encoded
  write_encoded-Promise w out rs r total fits h healthy room =
      option_rule (λ (a : Stepped Lsn). Promise crc32 rs r a.0 a.1) out.failed_after
        (λ _.
          synced_append-Promise _ out (lsn_at w.active_id w.active_len) rs r
            (written-Holds w rs r total fits h healthy room) healthy)
        (λ n _. inl (failed-Holds w rs (take n (encoding crc32 r)) h))

  encoded_len-Fits :
      (r : Record) → Fits r → encoded_len (length r.payload) ≡ ok (header_len + length r.payload)
  unfolding encoded_len
  encoded_len-Fits r fits = ground (arith, fits.short)

  encode_record-Fits :
      (r : Record) → Fits r → encode_record crc32 r.kind r.payload ≡ ok (encoding crc32 r)
  unfolding encode_record encoding
  encode_record-Fits r fits = rw (encoded_len-Fits r fits, encode_record) refl

  append_rotated-Promise :
      (w : Wal) (out : Outcomes) (rs : List Record) (r : Record) (total : ℕ)
      → Fits r
      → Holds crc32 w rs
      → w.poisoned ≡ false
      → w.active_len + (header_len + length r.payload) ≤ w.options.segment_size
      → let a = append_rotated crc32 w out r.kind r.payload total in Promise crc32 rs r a.0 a.1
  unfolding append_rotated checked_add_len
  append_rotated-Promise w out rs r total fits h healthy room =
      rw (encode_record-Fits r fits, append_rotated)
        (if_rule
          (λ (x : Result ℕ WalError).
            let a : Stepped Lsn = elim x [
              | err e ↦ (w, err e)
              | ok next_len ↦ write_encoded w out (encoding crc32 r) next_len total
            ] in
            Promise crc32 rs r a.0 a.1)
          (ltb (w.active_len + length (encoding crc32 r)) u64_mod)
          (λ _. write_encoded-Promise w out rs r total fits h healthy room) (λ _. inl h))

  append_sized-Promise :
      (w : Wal) (out : Outcomes) (rs : List Record) (r : Record) (total : ℕ)
      → Fits r
      → Holds crc32 w rs
      → w.poisoned ≡ false
      → let a = append_sized crc32 w out r.kind r.payload (header_len + length r.payload) total in
        Promise crc32 rs r a.0 a.1
  unfolding append_sized
  append_sized-Promise w out rs r total fits h healthy =
      go (rotate_if_needed w out (header_len + length r.payload))
        (rotate_if_needed-Rotated crc32 w out rs (header_len + length r.payload) h healthy)
    where
      go :
          (x : Stepped (Unit {0}))
          → Rotated crc32 rs (header_len + length r.payload) x.0 x.1
          → let a : Stepped Lsn = elim x.1 [
            | err e ↦ (x.0, err e)
            | ok u ↦ append_rotated crc32 x.0 out r.kind r.payload total
          ] in
            Promise crc32 rs r a.0 a.1
      go (w', err e) k = inl k
      go (w', ok u) k = append_rotated-Promise w' out rs r total fits k.0 k.1 k.2

  -- Whatever the operating system's outcomes, an append of a record with a positive 16-bit kind
  -- and a payload shorter than 2^32 to a log that holds a list of records leaves a log that holds
  -- the list with the record at its end when it returns a position; when it returns an error, the
  -- log holds the list as before, or holds the record too and is poisoned.
  pub append-Promise :
      (w : Wal) (out : Outcomes) (rs : List Record) (r : Record)
      → Fits r
      → Holds crc32 w rs
      → Promise crc32 rs r
          (append crc32 w out r.kind r.payload).0
          (append crc32 w out r.kind r.payload).1
  unfolding append checked_add_len
  append-Promise w out rs r fits h =
      if_rule P w.poisoned (λ _. inl h)
        (λ healthy. rw (encoded_len-Fits r fits) (
          if_rule
            (λ (x : Result ℕ WalError). P (elim x [
              | err e ↦ (w, err e)
              | ok total ↦
                  if ltb w.options.max_size total
                  then (w, err (wal_full total w.options.max_size))
                  else append_sized crc32 w out r.kind r.payload (header_len + length r.payload)
                      total
            ]))
            (ltb (w.total_len + (header_len + length r.payload)) u64_mod)
            (λ _.
              if_rule P (ltb w.options.max_size (w.total_len + (header_len + length r.payload)))
                (λ _. inl h) (λ _. append_sized-Promise w out rs r _ fits h healthy))
            (λ _. inl h)))
    where
      P : Stepped Lsn → Type 0
      P a = Promise crc32 rs r a.0 a.1
