-- ===== src/Migrations/Undo.antt =====
-- About `downgrade` in alembic/versions: commands that take others back, in the opposite order.
use lead_generation_api_zyla.Prelude.{
  Option, String, Bool, true, false, ◌≡◌, refl, sym, ◌∙◌, List, [], ◌∷◌, ◌++◌, all, arith,
}
use lead_generation_api_zyla.Errors.{Result, ok, err, >>=-eq-ok, ◌>>=◌}
use lead_generation_api_zyla.Migrations.Commands.{
  Table, Command, create_table, create_index, drop_table, drop_index, Op, perform, perform_all,
}
use lead_generation_api_zyla.Migrations.Laws.{IsDatabase}

-- what takes a creation back
abbrev pub inverse : Command → Command
inverse (create_table t) = drop_table t.name
inverse (create_index i) = drop_index i.name i.table
inverse (drop_table name) = drop_table name
inverse (drop_index name table) = drop_index name table

abbrev pub undo : List Command → List Command
undo [] = []
undo (c ∷ commands) = undo commands ++ inverse c ∷ []

abbrev pub is_creation : Command → Bool
is_creation (create_table t) = true
is_creation (create_index i) = true
is_creation _ = false

module _ {S : Type 0} (op : Op S) (table_of : S → String → Option Table)
    (has_index : S → String → Bool) (database : IsDatabase op table_of has_index) where
  pub perform_all-append :
      (first second : List Command) (s : S)
      → perform_all op (first ++ second) s ≡ (perform_all op first s >>= perform_all op second)
  unfolding perform_all
  perform_all-append [] second s = refl
  perform_all-append (c ∷ first) second s = go (perform op c s) (perform_all-append first second)
    where
      go :
          (r : Result S)
          → ((s' : S)
              → perform_all op (first ++ second) s'
                ≡ (perform_all op first s' >>= perform_all op second))
          → (r >>= perform_all op (first ++ second))
            ≡ ((r >>= perform_all op first) >>= perform_all op second)
      go (ok s') later = later s'
      go (err e) later = refl

  inverse_after :
      (c : Command) (s s' : S)
      → is_creation c ≡ true
      → perform op c s ≡ ok s'
      → perform op (inverse c) s' ≡ ok s
  inverse_after (create_table t) s s' h e = database.drops_table t s s' e
  inverse_after (create_index i) s s' h e = database.drops_index i s s' e
  inverse_after (drop_table name) s s' h e = cc
  inverse_after (drop_index name table) s s' h e = cc

  pub undo_after :
      (commands : List Command) (s s' : S)
      → all is_creation commands ≡ true
      → perform_all op commands s ≡ ok s'
      → perform_all op (undo commands) s' ≡ ok s
  unfolding perform_all
  undo_after [] s s' h e = sym e
  undo_after (c ∷ commands) s s' h e =
      let (s1, e1, rest) = >>=-eq-ok (perform op c s) (perform_all op commands) e in
      let back = undo_after commands s1 s' (ground arith) rest in
      perform_all-append (undo commands) (inverse c ∷ []) s'
      ∙ rw (back, inverse_after c s s1 (ground arith) e1) refl
