-- ===== src/Migrations/Order.antt =====
-- About `upgrade` in alembic/versions: the order of the commands, by the names, columns and keys that they
-- take and need.
use lead_generation_api_zyla.Prelude.{
  String, Bool, true, false, not, ◌||◌, ◌&&◌, ◌==◌, ◌≡◌, refl, ◌∙◌, subst, List, [], ◌∷◌, all,
  Bool-cases, inl, inr, arith, eq_iff, Option, none, some, if◌then◌else◌,
}
use lead_generation_api_zyla.Prelude.Text.{mem, startswith}
use lead_generation_api_zyla.Errors.{ok}
use lead_generation_api_zyla.Migrations.Commands.{
  Command, Table, Index, ForeignKey, create_table, create_index, drop_table, drop_index, Op,
  perform_all,
}
use lead_generation_api_zyla.Migrations.Laws.{refers, is_consistent, suits, IsDatabase}

-- the names that creations take
abbrev pub table_names : List Command → List String
table_names [] = []
table_names (create_table t ∷ commands) = t.name ∷ table_names commands
table_names (_ ∷ commands) = table_names commands

abbrev pub index_names : List Command → List String
index_names [] = []
index_names (create_index i ∷ commands) = i.name ∷ index_names commands
index_names (_ ∷ commands) = index_names commands

-- the table of a name among those created
abbrev pub known : List Table → String → Option Table
known [] x = none
known (t ∷ there) x = if t.name == x then some t else known there x

-- creations that take each name once, are consistent, and need only columns and keys of tables that are
-- there or were created before
abbrev pub is_ordered : List Table → List Command → Bool
is_ordered there [] = true
is_ordered there (create_table t ∷ commands) =
    not (mem t.name (table_names commands))
    && (is_consistent t
        && (all (λ (k : ForeignKey). refers k (known there k.table)) t.foreign_keys
            && is_ordered (t ∷ there) commands))
is_ordered there (create_index i ∷ commands) =
    not (mem i.name (index_names commands))
    && (suits i (known there i.table) && (startswith i.name "ix_" && is_ordered there commands))
is_ordered there (drop_table name ∷ commands) = false
is_ordered there (drop_index name table ∷ commands) = false

-- the tables created are those of the database
abbrev pub Agrees : (String → Option Table) → List Table → Type 0
Agrees table_of there = (x : String) (t : Table) → known there x ≡ some t → table_of x ≡ some t

-- no name of a list is taken
abbrev pub Absent : (String → Option Table) → List String → Type 0
Absent table_of names = (x : String) → mem x names ≡ true → table_of x ≡ none

abbrev pub Free : (String → Bool) → List String → Type 0
Free has names = (x : String) → mem x names ≡ true → has x ≡ false

named_ix :
    (there : List Table) (commands : List Command) (x : String)
    → is_ordered there commands ≡ true
    → mem x (index_names commands) ≡ true
    → startswith x "ix_" ≡ true
named_ix there [] x o h = cc
named_ix there (create_table t ∷ commands) x o h = named_ix (t ∷ there) commands x (ground arith) h
named_ix there (create_index i ∷ commands) x o h = elim (Bool-cases (i.name == x)) [
  | inl e ↦
      let same : i.name ≡ x = ground (arith, eq_iff i.name x) in
      subst (λ y. startswith y "ix_" ≡ true) same (ground arith)
  | inr e ↦ named_ix there commands x (ground arith) (ground arith)
]
named_ix there (drop_table name ∷ commands) x o h = cc
named_ix there (drop_index name table ∷ commands) x o h = cc

refers-Agrees :
    (k : ForeignKey) (found there : Option Table)
    → ((t : Table) → found ≡ some t → there ≡ some t)
    → refers k found ≡ true
    → refers k there ≡ true
refers-Agrees k none there h e = cc
refers-Agrees k (some t) there h e = rw (h t refl) e

suits-Agrees :
    (i : Index) (found there : Option Table)
    → ((t : Table) → found ≡ some t → there ≡ some t)
    → suits i found ≡ true
    → suits i there ≡ true
suits-Agrees i none there h e = cc
suits-Agrees i (some t) there h e = rw (h t refl) e

all-Agrees :
    (table_of : String → Option Table) (there : List Table) (keys : List ForeignKey)
    → Agrees table_of there
    → all (λ k. refers k (known there k.table)) keys ≡ true
    → all (λ k. refers k (table_of k.table)) keys ≡ true
all-Agrees table_of there [] h e = refl
all-Agrees table_of there (k ∷ keys) h e =
    let first =
      refers-Agrees k (known there k.table) (table_of k.table) (h k.table) (ground arith) in
    let rest = all-Agrees table_of there keys h (ground arith) in rw (first, rest) refl

behind : (name x : String) (names : List String) → mem x names ≡ true → mem x (name ∷ names) ≡ true
behind name x names h = ground arith

-- after a name was taken, the names behind it are as free, and the tables before as they were
still-Free :
    (name : String) (names : List String) (has has' : String → Bool)
    → mem name names ≡ false
    → ((x : String) → has' x ≡ ((name == x) || has x))
    → Free has names
    → Free has' names
still-Free name names has has' new grown free x h = elim (Bool-cases (name == x)) [
  | inl e ↦
      let same : name ≡ x = ground (arith, eq_iff name x) in
      let there = subst (λ y. mem y names ≡ false) same new in cc
  | inr e ↦ grown x ∙ rw (e, free x h) refl
]

module _ (t : Table) (table_of table_of' : String → Option Table)
    (grown : (x : String) → table_of' x ≡ (if t.name == x then some t else table_of x)) where
  still-Absent :
      (names : List String)
      → mem t.name names ≡ false
      → Absent table_of names
      → Absent table_of' names
  still-Absent names new free x h = elim (Bool-cases (t.name == x)) [
    | inl e ↦
        let same : t.name ≡ x = ground (arith, eq_iff t.name x) in
        let there = subst (λ y. mem y names ≡ false) same new in cc
    | inr e ↦ grown x ∙ rw (e, free x h) refl
  ]

  now-Agrees : (there : List Table) → Agrees table_of there → Agrees table_of' (t ∷ there)
  now-Agrees there agree x u h = elim (Bool-cases (t.name == x)) [
    | inl e ↦ let own : some t ≡ some u = ground (arith, h) in grown x ∙ rw e own
    | inr e ↦ let old : known there x ≡ some u = ground (arith, h) in grown x ∙ rw e (agree x u old)
  ]

module _ {S : Type 0} (op : Op S) (table_of : S → String → Option Table)
    (has_index : S → String → Bool) (database : IsDatabase op table_of has_index) where
  pub ordered_performs :
      (there : List Table) (commands : List Command) (s : S)
      → is_ordered there commands ≡ true
      → Agrees (table_of s) there
      → Absent (table_of s) (table_names commands)
      → Free (has_index s) (index_names commands)
      → (s' : S) × (perform_all op commands s ≡ ok s')
  unfolding perform_all
  ordered_performs there [] s o agree free_t free_i = (s, refl)
  ordered_performs there (create_table t ∷ commands) s o agree free_t free_i =
      let new : mem t.name (table_names commands) ≡ false = ground arith in
      let sound : is_consistent t ≡ true = ground arith in
      let keys : all (λ (k : ForeignKey). refers k (known there k.table)) t.foreign_keys ≡ true =
        ground arith in
      let later : is_ordered (t ∷ there) commands ≡ true = ground arith in
      let own : (t.name == t.name) ≡ true = ground (arith, eq_iff t.name t.name) in
      let (s1, created, grown, same) =
        database.creates_table t s (free_t t.name (rw own refl)) sound
          (all-Agrees (table_of s) there t.foreign_keys agree keys) in
      let (s2, rest) =
        ordered_performs (t ∷ there) commands s1 later
          (now-Agrees t (table_of s) (table_of s1) grown there agree)
          (still-Absent t (table_of s) (table_of s1) grown (table_names commands) new
            (λ x h. free_t x (behind t.name x (table_names commands) h)))
          (λ x h. same x (named_ix (t ∷ there) commands x later h) ∙ free_i x h) in
      (s2, rw created rest)
  ordered_performs there (create_index i ∷ commands) s o agree free_t free_i =
      let new : mem i.name (index_names commands) ≡ false = ground arith in
      let columns : suits i (known there i.table) ≡ true = ground arith in
      let later : is_ordered there commands ≡ true = ground arith in
      let own : (i.name == i.name) ≡ true = ground (arith, eq_iff i.name i.name) in
      let (s1, created, grown, same) =
        database.creates_index i s (free_i i.name (rw own refl))
          (suits-Agrees i (known there i.table) (table_of s i.table) (agree i.table) columns) in
      let (s2, rest) =
        ordered_performs there commands s1 later (λ x t h. same x ∙ agree x t h)
          (λ x h. same x ∙ free_t x h)
          (still-Free i.name (index_names commands) (has_index s) (has_index s1) new grown
            (λ x h. free_i x (behind i.name x (index_names commands) h))) in
      (s2, rw created rest)
  ordered_performs there (drop_table name ∷ commands) s o agree free_t free_i = cc
  ordered_performs there (drop_index name table ∷ commands) s o agree free_t free_i = cc
