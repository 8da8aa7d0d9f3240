-- ===== src/Codegen/Namespaces.antt =====
-- Braces in the texts of include/hft/codegen/CodeGenerator.h.
use hft_legacy_migration_fra.Base.{
  ℕ, zero, suc, ◌+◌, ◌/◌, ◌%◌, ◌<◌, ◌≡◌, refl, sym, ap, ◌∙◌, Bytes, Bool, true, false, List, [],
  ◌∷◌, arith, All, to_string, digits_from, length,
}
use hft_legacy_migration_fra.Orm.Schema.{ColumnInfo, TableInfo}
use hft_legacy_migration_fra.Codegen.Text.{
  for_each, count, total, IsBalanced, HasNoBrace, count-written, total-append, written-IsBalanced,
}
use hft_legacy_migration_fra.Codegen.Models.{
  pascal_from, to_pascal_case, get_cpp_type, default_value, field_pieces, visit_pieces,
  namespace_pieces, model_pieces, generate_entity, namespace_end, class_pieces, repository_pieces,
  generate_repository,
}

pascal_from-count :
    (b : ℕ) (next : Bool) (text : Bytes) → 122 < b → count b (pascal_from next text) ≡ count b text
unfolding pascal_from count
pascal_from-count b next [] h = refl
pascal_from-count b next (c ∷ text) h =
    ground (arith, pascal_from-count b true text h, pascal_from-count b false text h)

to_pascal_case-HasNoBrace : (text : Bytes) → HasNoBrace text → HasNoBrace (to_pascal_case text)
unfolding to_pascal_case
to_pascal_case-HasNoBrace text (ho, hc) = (
  pascal_from-count b'{' true text (omega arith) ∙ ho,
  pascal_from-count b'}' true text (omega arith) ∙ hc,
)

digits_from-count : (b f n : ℕ) (out : Bytes) → 57 < b → count b (digits_from f n out) ≡ count b out
unfolding digits_from count
digits_from-count b zero n out h = refl
digits_from-count b (suc f) n out h =
    ground (arith, digits_from-count b f (n / 10) ((b'0' + n % 10) ∷ out) h)

to_string-HasNoBrace : (n : ℕ) → HasNoBrace (to_string n)
unfolding to_string
to_string-HasNoBrace n = (
  digits_from-count b'{' (suc n) n [] (omega arith) ∙ unfold count in refl,
  digits_from-count b'}' (suc n) n [] (omega arith) ∙ unfold count in refl,
)

field_pieces-HasNoBrace :
    (col : ColumnInfo)
    → HasNoBrace col.name
    → (total b'{' (field_pieces col) ≡ 0) × (total b'}' (field_pieces col) ≡ 0)
unfolding field_pieces get_cpp_type default_value total count
field_pieces-HasNoBrace col (ho, hc) = ground (arith, ho, hc)

visit_pieces-HasNoBrace :
    (col : ColumnInfo)
    → HasNoBrace col.name
    → (total b'{' (visit_pieces col) ≡ 0) × (total b'}' (visit_pieces col) ≡ 0)
unfolding visit_pieces total count
visit_pieces-HasNoBrace col (ho, hc) = ground (arith, ho, hc)

for_each-HasNoBrace :
    (f : ColumnInfo → List Bytes) (cols : List ColumnInfo)
    → ((col : ColumnInfo)
        → HasNoBrace col.name
        → (total b'{' (f col) ≡ 0) × (total b'}' (f col) ≡ 0))
    → All (λ col. HasNoBrace col.name) cols
    → (total b'{' (for_each f cols) ≡ 0) × (total b'}' (for_each f cols) ≡ 0)
unfolding for_each
for_each-HasNoBrace f [] each h = unfold total in (refl, refl)
for_each-HasNoBrace f (col ∷ cols) each (h, hs) =
    let rest = for_each-HasNoBrace f cols each hs in
    (
      total-append b'{' (f col) (for_each f cols) ∙ omega (arith, each col h, rest),
      total-append b'}' (f col) (for_each f cols) ∙ omega (arith, each col h, rest),
    )

-- Whether a namespace is opened.
unfoldable pub opened : Bytes → ℕ
opened [] = 0
opened (c ∷ ns) = 1

namespace_pieces-total :
    (ns : Bytes)
    → HasNoBrace ns
    → (total b'{' (namespace_pieces ns) ≡ opened ns) × (total b'}' (namespace_pieces ns) ≡ 0)
unfolding namespace_pieces total opened
namespace_pieces-total [] (ho, hc) = (refl, refl)
namespace_pieces-total (c ∷ ns) (ho, hc) = rw (ho, hc) (unfold count in (refl, refl))

namespace_end-total :
    (ns : Bytes)
    → HasNoBrace ns
    → (total b'{' (namespace_end ns) ≡ 0) × (total b'}' (namespace_end ns) ≡ opened ns)
unfolding namespace_end total opened
namespace_end-total [] (ho, hc) = (refl, refl)
namespace_end-total (c ∷ ns) (ho, hc) = rw (ho, hc) (unfold count in (refl, refl))

module _ (ns : Bytes) (t : TableInfo) (hn : HasNoBrace ns) (ht : HasNoBrace t.name)
    (hs : All (λ col. HasNoBrace col.name) t.columns) where
  model_pieces-total :
      total b'{' (model_pieces ns t) + 1 ≡ total b'}' (model_pieces ns t) + opened ns
  unfolding model_pieces total count
  model_pieces-total = simp total-append (
      omega (
        arith,
        hn,
        ht,
        to_pascal_case-HasNoBrace t.name ht,
        to_string-HasNoBrace (length t.columns),
        namespace_pieces-total ns hn,
        for_each-HasNoBrace field_pieces t.columns field_pieces-HasNoBrace hs,
        for_each-HasNoBrace visit_pieces t.columns visit_pieces-HasNoBrace hs,
      ))

  repository_pieces-total :
      total b'{' (repository_pieces ns t) ≡ total b'}' (repository_pieces ns t)
  unfolding repository_pieces class_pieces total count
  repository_pieces-total = simp total-append (
      omega (
        arith,
        to_pascal_case-HasNoBrace t.name ht,
        namespace_pieces-total ns hn,
        namespace_end-total ns hn,
      ))

  -- If the namespace, the table and its columns have no brace in their names, the repository that is
  -- generated for the table has as many closing braces as opening ones; the entity has as many too
  -- where a namespace is given, and one closing brace too many where it is empty.
  pub generate_entity-count :
      (count b'{' (generate_entity ns t) + 1 ≡ count b'}' (generate_entity ns t) + opened ns)
      × IsBalanced (generate_repository ns t)
  unfolding generate_entity generate_repository
  generate_entity-count = (
    ap (λ (n : ℕ). n + 1) (count-written b'{' (model_pieces ns t))
        ∙ model_pieces-total
        ∙ ap (λ (n : ℕ). n + opened ns) (sym (count-written b'}' (model_pieces ns t))),
    written-IsBalanced (repository_pieces ns t) repository_pieces-total,
  )
