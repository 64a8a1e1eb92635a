-- ===== src/Queue/DemoStream.antt =====
-- A stream that meets the laws of Redis streams, in memory. Each row is an entry, and whether it is
-- acknowledged; only the first entry is ever claimed.
use lead_generation_api_zyla.Prelude.{
  ℕ, zero, suc, ◌≤◌, length, length-append, String, Bool, true, false, ◌==◌, ◌≡◌, refl, ap, ◌∙◌,
  Option, none, some, List, [], ◌∷◌, ◌++◌, ◌⊎◌, inl, inr, Bool-cases, if◌then◌else◌, find,
  update_where, arith, eq_iff,
}
use lead_generation_api_zyla.Errors.{ok, err, response_error}
use lead_generation_api_zyla.Exec.{Exec}
use lead_generation_api_zyla.Queue.Entries.{Fields, Entry}
use lead_generation_api_zyla.Queue.{Commands}

pub record Row : Type 0 where
  pub id : String
  pub fields : Fields
  pub is_acked : Bool

abbrev pub row_of : String → List Row → Option Row
row_of id = find (λ r. r.id == id)

unfoldable pub IsPosted : List Row → Entry → Type 0
IsPosted s e = (r : Row) × (row_of e.0 s ≡ some r) × (r.fields ≡ e.1)

-- how many rows are behind the row of an id
abbrev pub after : String → List Row → ℕ
after id [] = 0
after id (r ∷ rows) = let later = after id rows in if r.id == id then length rows else later

-- this stream trims nothing
unfoldable pub IsHeld : List Row → ℕ → Entry → Type 0
IsHeld s n e = IsPosted s e × (after e.0 s ≤ n)

unfoldable pub IsAcked : List Row → String → Type 0
IsAcked s id = (r : Row) × (row_of id s ≡ some r) × (r.is_acked ≡ true)

-- an id that is as long as the stream
abbrev pub fresh_id : List Row → String
fresh_id [] = "0"
fresh_id (r ∷ rows) = Prim.Native.String.◌++◌ "0" (fresh_id rows)

abbrev pub added_row : String → Fields → Row
added_row id fields = record { id = id; fields = fields; is_acked = false }

abbrev pub add_unless : String → Fields → Option Row → Exec (List Row) String
add_unless id fields (some r) s = (err (response_error "ERR The ID is equal or smaller"), s)
add_unless id fields none s = (ok id, s ++ added_row id fields ∷ [])

abbrev pub claim_first : ℕ → List Row → List Entry
claim_first zero rows = []
claim_first (suc count) [] = []
claim_first (suc count) (r ∷ rows) = if r.is_acked then [] else (r.id, r.fields) ∷ []

abbrev set_acked : Row → Row
set_acked r = record r { is_acked = true }

unfoldable pub demo_redis : Commands (List Row)
demo_redis = record {
  xgroup_create = λ s. (err (response_error "BUSYGROUP Consumer Group name already exists"), s);
  xadd = λ fields maxlen s. add_unless (fresh_id s) fields (row_of (fresh_id s) s) s;
  xautoclaim = λ min_idle_time count s. (ok (some (claim_first count s)), s);
  xreadgroup = λ count s. (ok none, s);
  xack = λ id s. (ok tt, update_where (λ r. r.id == id) set_acked s);
}

pub row_of-append :
    (id : String) (rows : List Row) (r new : Row)
    → row_of id rows ≡ some r
    → row_of id (rows ++ new ∷ []) ≡ some r
row_of-append id [] r new h = cc
row_of-append id (x ∷ rows) r new h = elim (Bool-cases (x.id == id)) [
  | inl e ↦ ground arith
  | inr e ↦ rw e (row_of-append id rows r new (ground arith))
]

length-snoc : (rows : List Row) (new : Row) → length (rows ++ new ∷ []) ≡ suc (length rows)
length-snoc rows new = omega (arith, length-append rows (new ∷ []))

pub after-append :
    (id : String) (rows : List Row) (new : Row) → after id (rows ++ new ∷ []) ≤ suc (after id rows)
after-append id [] new = elim (Bool-cases (new.id == id)) [
  | inl e ↦ rw e (omega arith)
  | inr e ↦ rw e (omega arith)
]
after-append id (x ∷ rows) new = elim (Bool-cases (x.id == id)) [
  | inl e ↦ rw e (omega (arith, length-snoc rows new))
  | inr e ↦ rw e (after-append id rows new)
]

pub after-new :
    (id : String) (rows : List Row) (new : Row)
    → row_of id rows ≡ none
    → (new.id == id) ≡ true
    → after id (rows ++ new ∷ []) ≡ 0
after-new id [] new free own = rw own refl
after-new id (x ∷ rows) new free own = elim (Bool-cases (x.id == id)) [
  | inl e ↦ absurd (ground arith)
  | inr e ↦ rw e (after-new id rows new (ground arith) own)
]

pub after-acked :
    (id k : String) (rows : List Row)
    → (length (update_where (λ x. x.id == id) set_acked rows) ≡ length rows)
      × (after k (update_where (λ x. x.id == id) set_acked rows) ≡ after k rows)
after-acked id k [] = (refl, refl)
after-acked id k (x ∷ rows) =
    let (same_length, same_after) = after-acked id k rows in
    elim (Bool-cases (x.id == id)) [
      | inl e ↦ elim (Bool-cases (x.id == k)) [
        | inl t ↦ rw (e, t) (ap suc same_length, same_length)
        | inr f ↦ rw (e, f) (ap suc same_length, same_after)
      ]
      | inr e ↦ elim (Bool-cases (x.id == k)) [
        | inl t ↦ rw (e, t) (ap suc same_length, same_length)
        | inr f ↦ rw (e, f) (ap suc same_length, same_after)
      ]
    ]

pub row_of-last :
    (id : String) (rows : List Row) (r new : Row)
    → row_of id (rows ++ new ∷ []) ≡ some r
    → (row_of id rows ≡ some r) ⊎ (r ≡ new)
row_of-last id [] r new h = elim (Bool-cases (new.id == id)) [
  | inl e ↦ inr (ground arith)
  | inr e ↦ absurd (ground arith)
]
row_of-last id (x ∷ rows) r new h = elim (Bool-cases (x.id == id)) [
  | inl e ↦ inl (ground arith)
  | inr e ↦ rw e (row_of-last id rows r new (ground arith))
]

-- An acknowledgement leaves what is posted.
pub posted-acked :
    (id : String) (rows : List Row) (e : Entry)
    → IsPosted rows e
    → IsPosted (update_where (λ x. x.id == id) set_acked rows) e
unfolding IsPosted
posted-acked id [] e (r, there, own) = cc
posted-acked id (x ∷ rows) e (r, there, own) = elim (Bool-cases (x.id == e.0)) [
  | inl same ↦
      let first : x ≡ r = ground arith in
      elim (Bool-cases (x.id == id)) [
        | inl t ↦ rw (t, same) (set_acked x, refl, ap (λ y. y.fields) first ∙ own)
        | inr f ↦ rw (f, same) (x, refl, ap (λ y. y.fields) first ∙ own)
      ]
  | inr other ↦
      let later = posted-acked id rows e (r, ground arith, own) in
      elim (Bool-cases (x.id == id)) [ inl t ↦ rw (t, other) later | inr f ↦ rw (f, other) later ]
]

pub acked-before :
    (id k : String) (rows : List Row) (r : Row)
    → row_of k (update_where (λ x. x.id == id) set_acked rows) ≡ some r
    → (k ≡ id) ⊎ (row_of k rows ≡ some r)
acked-before id k [] r h = cc
acked-before id k (x ∷ rows) r h = elim (Bool-cases (x.id == id)) [
  | inl t ↦ elim (Bool-cases (x.id == k)) [
    | inl t' ↦ inl (ground (arith, eq_iff x.id id, eq_iff x.id k))
    | inr f' ↦ rw f' (acked-before id k rows r (ground arith))
  ]
  | inr f ↦ elim (Bool-cases (x.id == k)) [
    | inl t' ↦ inr (ground arith)
    | inr f' ↦ rw f' (acked-before id k rows r (ground arith))
  ]
]
