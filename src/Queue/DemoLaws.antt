-- ===== src/Queue/DemoLaws.antt =====
-- The laws of Redis streams for the stream in memory.
use lead_generation_api_zyla.Prelude.{
  ℕ, zero, suc, ◌+◌, ◌≤◌, length, sym, String, Bool, true, false, ◌==◌, ◌≡◌, refl, ap, ◌∙◌, subst,
  Option, none, some, List, [], ◌∷◌, ◌++◌, All, inl, inr, Bool-cases, if◌then◌else◌, find-append,
  arith, eq_iff,
}
use lead_generation_api_zyla.Errors.{ok}
use lead_generation_api_zyla.Exec.{Exec}
use lead_generation_api_zyla.Queue.Entries.{Fields, Entry}
use lead_generation_api_zyla.Queue.Laws.{IsStream, Quiet}
use lead_generation_api_zyla.Queue.DemoStream.{
  IsAcked, IsHeld, IsPosted, Row, acked-before, add_unless, added_row, after, after-acked,
  after-append, after-new, claim_first, demo_redis, fresh_id, posted-acked, row_of, row_of-append,
  row_of-last,
}

one_entry : (s : List Row) (e e' : Entry) → IsPosted s e → IsPosted s e' → e.0 ≡ e'.0 → e ≡ e'
unfolding IsPosted
one_entry s (id, fields) (id', fields') (r, there, own) (r', there', own') same =
    let equal : r ≡ r' = cc in let fields_equal : fields ≡ fields' = cc in cc

new_entry :
    (id : String) (fields : Fields) (s s' : List Row) (found : Option Row) (k : String)
    → row_of id s ≡ found
    → add_unless id fields found s ≡ (ok k, s')
    → IsHeld s' 0 (k, fields) × ¬ IsAcked s' k
unfolding IsHeld IsPosted IsAcked
new_entry id fields s s' (some r) k free h = cc
new_entry id fields s s' none k free h =
    let same : id ≡ k = cc in
    let after_it : s ++ added_row id fields ∷ [] ≡ s' = cc in
    let there : row_of id (s ++ added_row id fields ∷ []) ≡ some (added_row id fields) =
      find-append (λ r. r.id == id) s (added_row id fields) free (ground (arith, eq_iff id id)) in
    let now_there : row_of k s' ≡ some (added_row id fields) =
      subst (λ x. row_of x s' ≡ some (added_row id fields)) same
        (subst (λ x. row_of id x ≡ some (added_row id fields)) after_it there) in
    let none_behind : after k s' ≡ 0 =
      subst (λ x. after x s' ≡ 0) same
        (subst (λ x. after id x ≡ 0) after_it
          (after-new id s (added_row id fields) free (ground (arith, eq_iff id id)))) in
    (
      ((added_row id fields, now_there, refl), omega (arith, none_behind)),
      (λ (r, found, is_acked).
          let equal : added_row id fields ≡ r = cc in
          let open_ : false ≡ true = ap (λ x. x.is_acked) equal ∙ is_acked in cc),
    )

first_posted : (count : ℕ) (s : List Row) → All (IsPosted s) (claim_first count s)
unfolding IsPosted
first_posted zero s = tt
first_posted (suc count) [] = tt
first_posted (suc count) (r ∷ rows) = go r.is_acked
  where
    go : (b : Bool) → All (IsPosted (r ∷ rows)) (if b then [] else (r.id, r.fields) ∷ [])
    go true = tt
    go false =
        let same : (r.id == r.id) ≡ true = ground (arith, eq_iff r.id r.id) in
        ((r, rw same refl, refl), tt)

demo-add-Quiet :
    (most : ℕ) (id : String) (fields : Fields) (found : Option Row)
    → Quiet IsPosted IsHeld IsAcked most 1 (add_unless id fields found)
unfolding IsHeld IsPosted IsAcked
demo-add-Quiet most id fields (some r) = record {
  keeps = λ s e p. p;
  holds = λ s n e room (p, le). (n, omega arith, (p, le));
  acks_none = λ s k h. h;
}
demo-add-Quiet most id fields none = record {
  keeps = λ s e (r, there, own). (r, row_of-append e.0 s r _ there, own);
  holds = λ s n e room ((r, there, own), le). (
    n + 1,
    omega arith,
    (
      (r, row_of-append e.0 s r _ there, own),
      omega (arith, le, after-append e.0 s (added_row id fields)),
    ),
  );
  acks_none = λ s k (r, there, true_). elim (row_of-last k s r _ there) [
    | inl before ↦ (r, before, true_)
    | inr new ↦ absurd (ground arith)
  ];
}

-- a command that leaves the stream alone
same-Quiet :
    (most : ℕ) {A : Type 0} (command : Exec (List Row) A)
    → ((s : List Row) → (command s).1 ≡ s)
    → Quiet IsPosted IsHeld IsAcked most 0 command
same-Quiet most command same = record {
  keeps = λ s e p. subst (λ x. IsPosted x e) (sym (same s)) p;
  holds = λ s n e room p. (n, omega arith, subst (λ x. IsHeld x n e) (sym (same s)) p);
  acks_none = λ s k h. subst (λ x. IsAcked x k) (same s) h;
}

first_length : (s : List Row) (count : ℕ) → length (claim_first count s) ≤ count
first_length s zero = omega arith
first_length [] (suc count) = omega arith
first_length (r ∷ rows) (suc count) = elim (Bool-cases r.is_acked) [
  | inl e ↦ rw e (omega arith)
  | inr e ↦ rw e (omega arith)
]

pub demo-IsStream : IsStream IsPosted IsHeld IsAcked demo_redis
unfolding demo_redis IsHeld IsPosted IsAcked
demo-IsStream = record {
  create-Quiet = λ most. same-Quiet most demo_redis.xgroup_create (λ s. refl);
  add-Quiet = λ fields maxlen. record {
    keeps =
        λ s e p. (demo-add-Quiet maxlen (fresh_id s) fields (row_of (fresh_id s) s)).keeps s e p;
    holds = λ s n e room p.
        (demo-add-Quiet maxlen (fresh_id s) fields (row_of (fresh_id s) s)).holds s n e room p;
    acks_none = λ s k h.
        (demo-add-Quiet maxlen (fresh_id s) fields (row_of (fresh_id s) s)).acks_none s k h;
  };
  claim-Quiet = λ most t n. same-Quiet most (demo_redis.xautoclaim t n) (λ s. refl);
  read-Quiet = λ most n. same-Quiet most (demo_redis.xreadgroup n) (λ s. refl);
  held_posted = λ s n e p. p.0;
  ack_holds =
      λ id s n e (p, le). (posted-acked id s e p, omega (arith, le, (after-acked id e.0 s).1));
  ack_keeps = λ id s e p. posted-acked id s e p;
  ack_one = λ id k s (r, there, true_). elim (acked-before id k s r there) [
    | inl same ↦ inl same
    | inr before ↦ inr (r, before, true_)
  ];
  fixed = one_entry;
  added = λ fields maxlen s s' id h room.
      new_entry (fresh_id s) fields s s' (row_of (fresh_id s) s) id refl h;
  claims_posted = λ t n s s' entries h.
      let same : s ≡ s' = cc in
      let these : claim_first n s ≡ entries = cc in
      (
        subst (λ x. All (IsPosted x) entries) same
            (subst (All (IsPosted s)) these (first_posted n s)),
        subst (λ x. length x ≤ n) these (first_length s n),
      );
  reads_posted = λ n s s' streams h. cc;
}
