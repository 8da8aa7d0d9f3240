-- ===== src/Repository/Placeholders.antt =====
-- `insertPS`: the columns, the placeholders and the bound parameters agree.
use hft_legacy_migration_fra.Base.{
  ℕ, suc, ◌≡◌, refl, ap, sym, ◌∙◌, Bytes, Bool, true, false, List, [], ◌∷◌, ◌++◌, map, append_assoc,
  append-nil, ok, codes, if◌then◌else◌, length, length-append, arith, Bool-cases, inl, inr,
}
use hft_legacy_migration_fra.Base.Int.{pos}
use hft_legacy_migration_fra.Catalog.Types.{print_int}
use hft_legacy_migration_fra.Catalog.Ddl.{joined}
use hft_legacy_migration_fra.Repository.Statement.{PreparedStatement, assign, bind}
use hft_legacy_migration_fra.Repository.Session.{Server}
use hft_legacy_migration_fra.Repository.Entity.{
  Field, int_field, double_field, string_field, other_field, Column, Traits, is_key, comma,
  build_column_list, build_placeholder_list, bind_parameter, next_index, bind_parameters,
  insert_ps_sql, updated, execute_update, insert_ps,
}

-- The columns that are not the primary key, in their order.
unfoldable pub kept : Traits → List Column → List Column
kept t [] = []
kept t (c ∷ cs) = let rest = kept t cs in if is_key t c then rest else c ∷ rest

-- The texts that are bound for a field: one, or none for a field that is no int, double or string.
unfoldable pub bound_text : Field → List Bytes
bound_text (int_field n) = print_int n ∷ []
bound_text (double_field streamed printed) = printed ∷ []
bound_text (string_field s) = s ∷ []
bound_text (other_field streamed) = []

unfoldable pub bound_texts : List Column → List Bytes
unfolding bound_text
bound_texts [] = []
bound_texts (c ∷ cs) = bound_text c.content ++ bound_texts cs

-- `$1`, `$2` and so on, one for each column.
unfoldable pub numbered : ℕ → List Column → List Bytes
numbered index [] = []
numbered index (c ∷ cs) = (codes "$" ++ print_int (pos index)) ∷ numbered (suc index) cs

assign-length :
    (v : Bytes) (params : List Bytes) → assign (length params) v params ≡ params ++ v ∷ []
unfolding assign
assign-length v [] = refl
assign-length v (p ∷ params) = ap (λ ps. p ∷ ps) (assign-length v params)

bind_parameter-length :
    (f : Field) (stmt : PreparedStatement)
    → bind_parameter f (suc (length stmt.params)) stmt
      ≡ ok (record stmt { params = stmt.params ++ bound_text f })
unfolding bind_parameter bind bound_text
bind_parameter-length (int_field n) stmt = rw (assign-length (print_int n) stmt.params) refl
bind_parameter-length (double_field streamed printed) stmt =
    rw (assign-length printed stmt.params) refl
bind_parameter-length (string_field s) stmt = rw (assign-length s stmt.params) refl
bind_parameter-length (other_field streamed) stmt = rw (append-nil stmt.params) refl

next_index-length :
    (f : Field) (params : List Bytes)
    → next_index f (suc (length params)) ≡ suc (length (params ++ bound_text f))
unfolding next_index bound_text
next_index-length (int_field n) params = omega (arith, length-append params (print_int n ∷ []))
next_index-length (double_field streamed printed) params =
    omega (arith, length-append params (printed ∷ []))
next_index-length (string_field s) params = omega (arith, length-append params (s ∷ []))
next_index-length (other_field streamed) params = ap suc (ap length (sym (append-nil params)))

pub bind_parameters_lem :
    (t : Traits) (e : List Column) (stmt : PreparedStatement)
    → bind_parameters t (suc (length stmt.params)) e stmt
      ≡ ok (record stmt { params = stmt.params ++ bound_texts (kept t e) })
unfolding bind_parameters kept bound_texts
bind_parameters_lem t [] stmt = rw (append-nil stmt.params) refl
bind_parameters_lem t (c ∷ e) stmt = elim (Bool-cases (is_key t c)) [
  | inl key ↦ rw (key, bind_parameters) (bind_parameters_lem t e stmt)
  | inr other ↦
      let bound : PreparedStatement = record stmt {
        params = stmt.params ++ bound_text c.content;
      } in
      let longer : next_index c.content (suc (length stmt.params)) ≡ suc (length bound.params) =
        next_index-length c.content stmt.params in
      rw
        (
          other,
          bind_parameter-length c.content stmt,
          bind_parameters,
          longer,
          bind_parameters_lem t e bound,
        )
        (ap (λ ps. ok (record stmt { params = ps }))
          (append_assoc stmt.params (bound_text c.content) _))
]

-- Texts with a comma between each two, by the flag `first`.
unfoldable listed : Bool → List Bytes → Bytes
listed first [] = []
listed first (part ∷ parts) = comma first ++ (part ++ listed false parts)

listed-joined : (parts : List Bytes) → listed true parts ≡ joined (codes ", ") parts
unfolding listed joined
listed-joined [] = refl
listed-joined (part ∷ []) = append-nil part
listed-joined (part ∷ next ∷ parts) =
    ap (λ s. part ++ (codes ", " ++ s)) (listed-joined (next ∷ parts))

column_list-listed :
    (t : Traits) (first : Bool) (e : List Column)
    → build_column_list t first e ≡ listed first (map (λ c. c.name) (kept t e))
unfolding listed kept build_column_list
column_list-listed t first [] = refl
column_list-listed t first (c ∷ e) = elim (Bool-cases (is_key t c)) [
  | inl key ↦ rw (key, build_column_list) (column_list-listed t first e)
  | inr other ↦ rw (other, build_column_list) (rw (column_list-listed t false e) refl)
]

placeholder_list-listed :
    (t : Traits) (first : Bool) (index : ℕ) (e : List Column)
    → build_placeholder_list t first index e ≡ listed first (numbered index (kept t e))
unfolding listed kept build_placeholder_list numbered
placeholder_list-listed t first index [] = refl
placeholder_list-listed t first index (c ∷ e) = elim (Bool-cases (is_key t c)) [
  | inl key ↦ rw (key, build_placeholder_list) (placeholder_list-listed t first index e)
  | inr other ↦
      rw (other, build_placeholder_list) (rw (placeholder_list-listed t false (suc index) e) refl)
]

column_list-joined :
    (t : Traits) (e : List Column)
    → build_column_list t true e ≡ joined (codes ", ") (map (λ c. c.name) (kept t e))
column_list-joined t e = column_list-listed t true e ∙ listed-joined (map (λ c. c.name) (kept t e))

placeholder_list-joined :
    (t : Traits) (e : List Column)
    → build_placeholder_list t true 1 e ≡ joined (codes ", ") (numbered 1 (kept t e))
placeholder_list-joined t e =
    placeholder_list-listed t true 1 e ∙ listed-joined (numbered 1 (kept t e))

-- The INSERT statement of an entity: the columns but the primary key, with a numbered placeholder each.
abbrev pub insert_text : Traits → List Column → Bytes
insert_text t e =
    codes "INSERT INTO "
    ++ (t.table_name
        ++ (codes " ("
            ++ (joined (codes ", ") (map (λ c. c.name) (kept t e))
                ++ (codes ") VALUES ("
                    ++ (joined (codes ", ") (numbered 1 (kept t e)) ++ codes ")")))))

-- `insertPS` sends one statement. It names the columns but the primary key, in their order, has one
-- numbered placeholder for each, and its parameters are the texts of the ints, doubles and strings
-- among their values, in the same order.
pub insert_ps_lem :
    (server : Server) (t : Traits) (e : List Column) (db : server.State)
    → let sql =
        codes "INSERT INTO "
        ++ (t.table_name
            ++ (codes " ("
                ++ (joined (codes ", ") (map (λ c. c.name) (kept t e))
                    ++ (codes ") VALUES ("
                        ++ (joined (codes ", ") (numbered 1 (kept t e)) ++ codes ")"))))) in
      let reply = server.send db sql (bound_texts (kept t e)) in
      insert_ps server t e db ≡ (updated reply.0, reply.1)
unfolding insert_ps execute_update insert_ps_sql
insert_ps_lem server t e db =
    rw
      (
        bind_parameters_lem t e (record { sql = insert_ps_sql t e; params = [] }),
        insert_ps,
        column_list-joined t e,
        placeholder_list-joined t e,
      )
      refl
